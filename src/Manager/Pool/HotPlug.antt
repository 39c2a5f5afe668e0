-- ===== src/Manager/Pool/HotPlug.antt =====
-- Discovery and hot-plug of pkg/manager/pool.go.
use qmi_go.Base.{ℕ, suc, List, [], ◌∷◌, ◌++◌, true, false, if◌then◌else◌}
use qmi_go.Base.{Option, none, some, Result, ok, err}
use qmi_go.Base.Maps.{lookup, insert, erase}
use qmi_go.Manager.Pool.{
  Pool, ModemDevice, PoolError, no_discoverer, discovery_failed, with_new, add, is_some,
}

-- `discoverModemsFn`, where it is registered, and what it returns.
abbrev pub Discovery : Type 0
Discovery = Option (Option (List ModemDevice))

-- The loop of `DiscoverAndAdd`, with `added`.
unfoldable pub add_discovered : List ModemDevice → ℕ → Pool → Pool × ℕ
unfolding add
add_discovered [] added p = (p, added)
add_discovered (device ∷ rest) added p = elim (add p device.net_interface device).1 [
  | err e ↦ add_discovered rest added (add p device.net_interface device).0
  | ok mgr ↦ add_discovered rest (suc added) (add p device.net_interface device).0
]

unfoldable pub discover_and_add : Pool → Discovery → Pool × Result PoolError ℕ
unfolding add_discovered
discover_and_add p none = (p, err no_discoverer)
discover_and_add p (some none) = (p, err discovery_failed)
discover_and_add p (some (some devices)) =
    let (q, added) = add_discovered devices 0 p in (q, ok added)

-- `discoveredMap`
unfoldable pub by_interface : List ModemDevice → List (ℕ × ModemDevice) → List (ℕ × ModemDevice)
by_interface [] m = m
by_interface (device ∷ rest) m = by_interface rest (insert device.net_interface device m)

-- A modem that is gone.
unfoldable pub drop_modem : Pool → ℕ → ℕ → Pool
drop_modem p name mgr = record p {
  stopped = p.stopped ++ (mgr ∷ []);
  modems = erase name p.modems;
  health_status = erase name p.health_status;
  disconnected = suc p.disconnected;
}

-- The loop for removed modems, over those that the pool has when it begins.
unfoldable pub remove_missing : List (ℕ × ModemDevice) → List (ℕ × ℕ) → Pool → Pool
unfolding drop_modem
remove_missing found [] p = p
remove_missing found ((name, mgr) ∷ rest) p =
    remove_missing found rest (if is_some (lookup name found) then p else drop_modem p name mgr)

-- A modem that is new, and is started.
unfoldable pub plug_in : Pool → ℕ → ModemDevice → Pool
plug_in p name device = record (with_new p device name) {
  started = p.started ++ (p.next_manager ∷ []);
}

unfoldable pub add_new : List (ℕ × ModemDevice) → Pool → Pool
unfolding plug_in
add_new [] p = p
add_new ((name, device) ∷ rest) p =
    add_new rest (if is_some (lookup name p.modems) then p else plug_in p name device)

unfoldable pub scan_for_changes : Discovery → Pool → Pool
unfolding by_interface remove_missing add_new
scan_for_changes none p = p
scan_for_changes (some none) p = p
scan_for_changes (some (some devices)) p =
    let found = by_interface devices [] in add_new found (remove_missing found p.modems p)

unfoldable pub watch_hot_plug : Pool → Pool
watch_hot_plug p = if p.hotplug_running then p else record p { hotplug_running = true }

unfoldable pub stop_hot_plug : Pool → Pool
stop_hot_plug p = if p.hotplug_running then record p { hotplug_running = false } else p
