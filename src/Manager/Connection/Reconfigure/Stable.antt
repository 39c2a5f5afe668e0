-- ===== src/Manager/Connection/Reconfigure/Stable.antt =====
-- A change of the data configuration keeps the manager's invariant.
use qmi_go.Base.{refl, arith, true, false, ◌&&◌, not, none, some, if◌then◌else◌, if_both}
use qmi_go.Manager.Connection.{
  Manager, stopping, is_connected, is_connecting, is_stopping, is_disconnected, do_disconnect,
}
use qmi_go.Manager.Connection.Connect.{Ended, do_connect}
use qmi_go.Manager.Connection.Outcomes.{GivesHandles}
use qmi_go.Manager.Connection.Invariant.{IsValid, do_connect-IsValid, do_disconnect-IsValid}
use qmi_go.Manager.Connection.Bearer.{is_active}
use qmi_go.Manager.Connection.Reconfigure.{
  DataConfig, ReconfigureEnv, with_selection, selection, is_unchanged, Reconfigured,
  restore_previous, after_redial, redial, change_selection, finished, stop_and_change,
  reconfigure_data_config, cleanup_after_failed_redial,
}

abbrev Stays : Reconfigured → Type 0
Stays r = IsValid r.0

finished-Stays : (r : Reconfigured) → Stays r → Stays (finished r)
finished-Stays (d, e) v = record { settled = v.settled; carried = v.carried; cleaned = v.cleaned }

restore-IsValid : (before m : Manager) → IsValid m → IsValid (restore_previous before m)
restore-IsValid before m v = record {
  settled = v.settled;
  carried = v.carried;
  cleaned = v.cleaned;
}

cleanup-IsValid :
    (before m : Manager) (env : ReconfigureEnv) → IsValid (cleanup_after_failed_redial before m env)
cleanup-IsValid before m env =
    restore-IsValid before (do_disconnect m env.cleanup_v4 env.cleanup_v6).0
      (do_disconnect-IsValid m env.cleanup_v4 env.cleanup_v6)

after_redial-Stays :
    (before : Manager) (r : Ended) (env : ReconfigureEnv)
    → IsValid r.0
    → Stays (after_redial before r env)
unfolding after_redial
after_redial-Stays before (d, some e) env v = cleanup-IsValid before d env
after_redial-Stays before (d, none) env v =
    if_both Stays env.open_at_end v (cleanup-IsValid before d env)

redial-Stays :
    (before m : Manager) (env : ReconfigureEnv)
    → GivesHandles env.connect_env
    → IsValid m
    → Stays (redial before m env)
unfolding redial
redial-Stays before m env g v =
    let wanted : Manager = record m { desired_connection = true } in
    if_both Stays (not env.open_at_redial) (restore-IsValid before m v) (
      if_both Stays (is_active before && before.desired_connection)
        (after_redial-Stays before (do_connect wanted env.connect_env) env (
          do_connect-IsValid wanted env.connect_env g
            (record { settled = v.settled; carried = v.carried; cleaned = v.cleaned })))
        v)

change_selection-Stays :
    (before m : Manager) (new : DataConfig) (env : ReconfigureEnv)
    → GivesHandles env.connect_env
    → IsValid m
    → Stays (change_selection before m new env)
unfolding change_selection is_connecting is_connected is_disconnected
change_selection-Stays before m new env g v =
    if_both Stays (not env.open_at_change)
      (record { settled = v.settled; carried = v.carried; cleaned = v.cleaned })
      (if_both Stays (is_stopping (if env.stop_began then stopping else m.state))
        (record { settled = refl; carried = refl; cleaned = ground arith })
        (redial-Stays before (record m { cfg = with_selection m.cfg new }) env g
          (record { settled = v.settled; carried = v.carried; cleaned = v.cleaned })))

stop_and_change-Stays :
    (m : Manager) (new : DataConfig) (env : ReconfigureEnv)
    → GivesHandles env.connect_env
    → Stays (stop_and_change m new env)
unfolding stop_and_change
stop_and_change-Stays m new env g =
    let held : Manager = record m { reconfiguring_data = true; desired_connection = false } in
    let v = do_disconnect-IsValid held env.stops_v4 env.stops_v6 in
    if_both Stays (do_disconnect held env.stops_v4 env.stops_v6).1
      (change_selection-Stays m (do_disconnect held env.stops_v4 env.stops_v6).0 new env g v)
      (record { settled = v.settled; carried = v.carried; cleaned = v.cleaned })

pub reconfigure_data_config-IsValid :
    (m : Manager) (new : DataConfig) (env : ReconfigureEnv)
    → GivesHandles env.connect_env
    → IsValid m
    → IsValid (reconfigure_data_config m new env).0
unfolding reconfigure_data_config
reconfigure_data_config-IsValid m new env g v =
    if_both Stays (not new.enable_ipv4 && not new.enable_ipv6) v (
      if_both Stays (is_stopping m.state) v (
        if_both Stays (is_unchanged (selection m.cfg) new) v (
          if_both Stays (not (is_active m))
            (finished-Stays (change_selection m (record m { reconfiguring_data = true }) new env) (
              change_selection-Stays m (record m { reconfiguring_data = true }) new env g
                (record { settled = v.settled; carried = v.carried; cleaned = v.cleaned })))
            (if_both Stays (not env.open_at_stop) v
              (finished-Stays (stop_and_change m new env) (stop_and_change-Stays m new env g))))))
