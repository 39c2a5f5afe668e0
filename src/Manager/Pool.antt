-- ===== src/Manager/Pool.antt =====
-- ModemPool of pkg/manager/pool.go. A manager is the number of its object, a name that of its text, and
-- the state a manager is in, its signal and the order in which Go runs through a map are arguments.
pub mod Selectors
pub mod Fair
pub mod Members
pub mod Chosen
pub mod Strongest
pub mod HotPlug
pub mod Missing
pub mod Scanned
use qmi_go.Base.{ℕ, zero, suc, ◌+◌, List, [], ◌∷◌, ◌++◌, Bool, true, false, ◌||◌, length, ltb, ◌==◌}
use qmi_go.Base.{if◌then◌else◌, Option, none, some, Result, ok, err}
use qmi_go.Base.Maps.{lookup, insert, erase}
use qmi_go.Manager.Pool.Selectors.{Selector, Choice, select, signal_strength, round_robin}

-- `LastCheck` is a clock reading; `SignalRSSI` is raised by 128.
pub record HealthStatus : Type 0 where
  pub name : ℕ
  pub connected : Bool
  pub signal_rssi : ℕ
  pub last_check : ℕ
  pub last_error : Bool

-- A discovered modem: its interface, and the number of all else that is known of it.
pub record ModemDevice : Type 0 where
  pub net_interface : ℕ
  pub details : ℕ

-- `configured` has the device of each manager that was made, `started` and `stopped` those whose Start
-- and Stop were called, `disconnected` counts the emitted events.
pub record Pool : Type 0 where
  pub modems : List (ℕ × ℕ)
  pub selector : Selector
  pub health_status : List (ℕ × HealthStatus)
  pub next_manager : ℕ
  pub configured : List (ℕ × ModemDevice)
  pub started : List ℕ
  pub stopped : List ℕ
  pub disconnected : ℕ
  pub health_running : Bool
  pub hotplug_running : Bool

-- `NewPool`
unfoldable pub new_pool : Pool
new_pool = record {
  modems = [];
  selector = round_robin 0;
  health_status = [];
  next_manager = 0;
  configured = [];
  started = [];
  stopped = [];
  disconnected = 0;
  health_running = false;
  hotplug_running = false;
}

unfoldable pub set_selector : Pool → Selector → Pool
set_selector p s = record p { selector = s }

unfoldable pub is_some {ℓ} : {A : Type ℓ} → Option A → Bool
is_some none = false
is_some (some a) = true

-- `New(cfg, logger)` and its entry in the map.
unfoldable pub with_new : Pool → ModemDevice → ℕ → Pool
with_new p device name = record p {
  modems = insert name p.next_manager p.modems;
  configured = insert p.next_manager device p.configured;
  next_manager = suc p.next_manager;
}

pub data PoolError : Type 0 where
  already_exists not_found no_discoverer discovery_failed : PoolError
  failed_to_start : ℕ → PoolError

unfoldable pub add : Pool → ℕ → ModemDevice → Pool × Result PoolError ℕ
add p name device =
    if is_some (lookup name p.modems)
    then (p, err already_exists)
    else (with_new p device name, ok p.next_manager)

unfoldable pub remove_modem : Pool → ℕ → Pool × Result PoolError (Unit {0})
remove_modem p name = elim (lookup name p.modems) [
  | none ↦ (p, err not_found)
  | some mgr ↦ (record p { stopped = p.stopped ++ (mgr ∷ []); modems = erase name p.modems }, ok tt)
]

unfoldable pub connected_managers : (ℕ → Bool) → List ℕ → List ℕ
connected_managers is_connected [] = []
connected_managers is_connected (mgr ∷ rest) =
    let more = connected_managers is_connected rest in if is_connected mgr then mgr ∷ more else more

abbrev pub first_of : List ℕ → Option ℕ
first_of [] = none
first_of (mgr ∷ rest) = some mgr

-- The second half of `Get`, from the connected managers on; `order` is that of the second loop.
abbrev pub get_from : Pool → Choice → List ℕ → List ℕ → Pool × Option ℕ
get_from p choice order [] = (p, first_of order)
get_from p choice order (mgr ∷ rest) =
    let (selector, chosen) = select p.selector choice (mgr ∷ rest) in
    (record p { selector = selector }, chosen)

unfoldable pub get : Pool → (ℕ → Bool) → Choice → List ℕ → List ℕ → Pool × Option ℕ
unfolding connected_managers
get p is_connected choice order second_order =
    if length p.modems == 0
    then (p, none)
    else get_from p choice second_order (connected_managers is_connected order)

unfoldable pub get_by_name : Pool → ℕ → Option ℕ
get_by_name p name = lookup name p.modems

unfoldable pub get_healthy : (ℕ → Bool) → Choice → List ℕ → Option ℕ
unfolding connected_managers
get_healthy is_connected choice order =
    (select signal_strength choice (connected_managers is_connected order)).1

unfoldable pub size : Pool → ℕ
size p = length p.modems

unfoldable pub connected_count : (ℕ → Bool) → List ℕ → ℕ
unfolding connected_managers
connected_count is_connected order = length (connected_managers is_connected order)

-- `StartAll`, where `fails` tells whose Start returns an error.
unfoldable pub count_failed : (ℕ → Bool) → List ℕ → ℕ
count_failed fails [] = 0
count_failed fails (mgr ∷ rest) =
    let more = count_failed fails rest in if fails mgr then suc more else more

unfoldable pub start_all : Pool → (ℕ → Bool) → List ℕ → Pool × Result PoolError (Unit {0})
unfolding count_failed
start_all p fails order =
    let failed = count_failed fails order in
    (
      record p { started = p.started ++ order },
      if ltb 0 failed then err (failed_to_start failed) else ok tt,
    )

unfoldable pub stop_all : Pool → List ℕ → Pool
stop_all p order = record p { stopped = p.stopped ++ order }

-- One round of `checkHealth`; no signal is a manager without a NAS client, and else the answer.
unfoldable pub check_modem : (ℕ → Bool) → (ℕ → Option (Option ℕ)) → ℕ → Pool → ℕ → ℕ → Pool
check_modem is_connected signal now p name mgr =
    let status : HealthStatus = record {
      name = name;
      connected = is_connected mgr;
      signal_rssi = elim (signal mgr) [
        | none ↦ 128
        | some answer ↦ elim answer [ none ↦ 128 | some rssi ↦ rssi ]
      ];
      last_check = now;
      last_error = elim (signal mgr) [
        | none ↦ false
        | some answer ↦ elim answer [ none ↦ true | some rssi ↦ false ]
      ];
    } in
    record p { health_status = insert name status p.health_status }

-- The loop over the modems that were in the pool when it began.
unfoldable pub check_health : (ℕ → Bool) → (ℕ → Option (Option ℕ)) → ℕ → List (ℕ × ℕ) → Pool → Pool
unfolding check_modem
check_health is_connected signal now [] p = p
check_health is_connected signal now ((name, mgr) ∷ rest) p =
    check_health is_connected signal now rest (check_modem is_connected signal now p name mgr)

unfoldable pub start_health_monitor : Pool → Pool
start_health_monitor p = if p.health_running then p else record p { health_running = true }

unfoldable pub stop_health_monitor : Pool → Pool
stop_health_monitor p = if p.health_running then record p { health_running = false } else p
