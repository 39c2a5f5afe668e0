-- ===== src/Tests/Pool.antt =====
-- The pool of modems of pkg/manager/pool.go.
use qmi_go.Base.{ℕ, ◌+◌, ◌≡◌, refl, arith, List, [], ◌∷◌, ◌++◌, true, false, none, some, ◌==◌, Bool}
use qmi_go.Base.Maps.{lookup, insert, erase}
use qmi_go.Manager.Pool.{
  Pool, ModemDevice, get, get_healthy, is_some, remove_modem, check_health, check_modem,
}
use qmi_go.Manager.Pool.Selectors.{Choice, round_robin, select, next_counter, random}
use qmi_go.Manager.Pool.Fair.{HasTurn, round_robin-HasTurn}
use qmi_go.Manager.Pool.Members.{has_manager, IsOrder}
use qmi_go.Manager.Pool.Chosen.{Picked, BestKnown, get-Picked}
use qmi_go.Manager.Pool.Strongest.{Healthiest, get_healthy-Healthiest}
use qmi_go.Manager.Pool.Missing.{has_device, missing}
use qmi_go.Manager.Pool.HotPlug.{scan_for_changes, by_interface}
use qmi_go.Manager.Pool.Scanned.{Follows, scan_for_changes-Follows}

abbrev two_modems : Pool
two_modems = record {
  modems = (10, 1) ∷ (11, 2) ∷ [];
  selector = random;
  health_status = [];
  next_manager = 3;
  configured = [];
  started = [];
  stopped = [];
  disconnected = 0;
  health_running = false;
  hotplug_running = true;
}

abbrev always_first : Choice
always_first = record { draw = λ n. 0; signal = λ mgr. some (mgr + 40); now = 5 }

round_robin-HasTurn_example : HasTurn 7 always_first (4 ∷ 9 ∷ 6 ∷ []) 2
round_robin-HasTurn_example =
    round_robin-HasTurn 7 always_first (4 ∷ 9 ∷ 6 ∷ []) 2
      ((λ e. omega arith, (λ e. omega arith, tt)), ((λ e. omega arith, tt), (tt, tt))) (omega arith)
      (omega arith)

backwards-IsOrder : IsOrder two_modems (2 ∷ 1 ∷ [])
unfolding has_manager
backwards-IsOrder = record { of_pool = (refl, (refl, tt)); complete = (refl, (refl, tt)) }

abbrev second_is_connected : ℕ → Bool
second_is_connected mgr = mgr == 2

get-Picked_example :
    Picked
      (BestKnown two_modems second_is_connected)
      (get two_modems second_is_connected always_first (2 ∷ 1 ∷ []) (2 ∷ 1 ∷ [])).1
get-Picked_example =
    get-Picked two_modems second_is_connected always_first (2 ∷ 1 ∷ []) (2 ∷ 1 ∷ []) refl
      backwards-IsOrder backwards-IsOrder (λ n h. h)

get_healthy-Healthiest_example :
    Healthiest two_modems
      (λ mgr. true)
      (λ mgr. some (mgr + 40))
      (get_healthy (λ mgr. true) always_first (2 ∷ 1 ∷ []))
get_healthy-Healthiest_example =
    get_healthy-Healthiest two_modems (λ mgr. true) always_first (2 ∷ 1 ∷ []) backwards-IsOrder

abbrev devices : List ModemDevice
devices =
    record { net_interface = 11; details = 0 } ∷ record { net_interface = 12; details = 1 } ∷ []

scan_for_changes-Follows_example :
    Follows 3
      (lookup 12 two_modems.modems)
      (has_device 12 devices)
      (lookup 12 (scan_for_changes (some (some devices)) two_modems).modems)
    × ((scan_for_changes (some (some devices)) two_modems).stopped
        ≡ two_modems.stopped ++ missing (by_interface devices []) two_modems.modems)
scan_for_changes-Follows_example = scan_for_changes-Follows two_modems devices 12

-- The counter goes round, and the map gives the two modems in another order each time: the same modem
-- is chosen twice.
same_twice :
    ((select (round_robin 0) always_first (1 ∷ 2 ∷ [])).1 ≡ some 2)
    × ((select (round_robin 1) always_first (2 ∷ 1 ∷ [])).1 ≡ some 2)
unfolding select next_counter
same_twice = (refl, refl)

abbrev checked_pool : Pool
checked_pool = check_health (λ mgr. true) (λ mgr. none) 5 two_modems.modems two_modems

-- A modem that was removed keeps its health status.
removed_stays :
    (is_some (lookup 10 (remove_modem checked_pool 10).0.modems) ≡ false)
    × (is_some (lookup 10 (remove_modem checked_pool 10).0.health_status) ≡ true)
unfolding is_some lookup remove_modem check_health check_modem insert erase
removed_stays = (refl, refl)
