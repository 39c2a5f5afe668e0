-- ===== src/Manager/Connection/Reconfigure.antt =====
-- `ReconfigureDataConfig` of pkg/manager/data_config.go. That the state is `stopping` at its second look
-- is the argument `stop_began`, although `Stop` itself waits for the lock that this call holds.
pub mod Outcome
pub mod Stable
use Prim.Native.String.{String}
use text.Mathlib.Text.{◌==◌ as ◌=ˢ◌}
use text.Mathlib.TextEquality.{eq_iff}
use qmi_go.Base.{
  ◌≡◌, refl, ap, sym, ◌∙◌, arith, Bool, true, false, ◌&&◌, ◌||◌, not, Option, none, some, ◌⊎◌, inl,
  inr,
}
use qmi_go.Base.{if◌then◌else◌, if_both, if_split}
use qmi_go.Manager.Connection.{
  Manager, DataSettings, connected, stopping, disconnected, is_connected, is_connecting,
  is_stopping, is_disconnected, has_handle, do_disconnect,
}
use qmi_go.Manager.Connection.Connect.{
  ConnectEnv, ConnError, Ended, do_connect, connect_body, cleanup_after,
}
use qmi_go.Manager.Connection.Outcomes.{GivesHandles}
use qmi_go.Manager.Connection.Invariant.{IsValid, do_connect-IsValid, do_disconnect-IsValid}
use qmi_go.Manager.Connection.Bearer.{is_active}

-- `DataConfig`, its APN already without the blanks around it.
pub record DataConfig : Type 0 where
  pub apn : String
  pub enable_ipv4 : Bool
  pub enable_ipv6 : Bool

pub data ReconfigureError : Type 0 where
  invalid_data_config manager_is_stopping request_ended stop_failed : ReconfigureError
  not_redialled : ConnError → ReconfigureError

-- What happens during one call: the context at each look, the two stops of the disconnect, the connect,
-- and the stops of the cleanup.
pub record ReconfigureEnv : Type 0 where
  pub open_at_stop : Bool
  pub stops_v4 : Bool
  pub stops_v6 : Bool
  pub open_at_change : Bool
  pub stop_began : Bool
  pub open_at_redial : Bool
  pub connect_env : ConnectEnv
  pub open_at_end : Bool
  pub cleanup_v4 : Bool
  pub cleanup_v6 : Bool

abbrev pub with_selection : DataSettings → DataConfig → DataSettings
with_selection s c = record s {
  apn = c.apn;
  enable_ipv4 = c.enable_ipv4;
  enable_ipv6 = c.enable_ipv6;
}

abbrev pub selection : DataSettings → DataConfig
selection s = record { apn = s.apn; enable_ipv4 = s.enable_ipv4; enable_ipv6 = s.enable_ipv6 }

unfoldable pub same_flag : Bool → Bool → Bool
same_flag true b = b
same_flag false b = not b

unfoldable pub is_unchanged : DataConfig → DataConfig → Bool
is_unchanged old new =
    (old.apn =ˢ new.apn)
    && (same_flag old.enable_ipv4 new.enable_ipv4 && same_flag old.enable_ipv6 new.enable_ipv6)

abbrev pub Reconfigured : Type 0
Reconfigured = Manager × Option ReconfigureError

-- `restorePrevious`, and `cleanupAfterFailedRedial`.
abbrev pub restore_previous : Manager → Manager → Manager
restore_previous before m = record m {
  cfg = with_selection m.cfg (selection before.cfg);
  desired_connection = before.desired_connection;
}

abbrev pub cleanup_after_failed_redial : Manager → Manager → ReconfigureEnv → Manager
cleanup_after_failed_redial before m env =
    restore_previous before (do_disconnect m env.cleanup_v4 env.cleanup_v6).0

unfoldable pub after_redial : Manager → Ended → ReconfigureEnv → Reconfigured
after_redial before (m, some e) env =
    (cleanup_after_failed_redial before m env, some (not_redialled e))
after_redial before (m, none) env =
    if env.open_at_end
    then (m, none)
    else (cleanup_after_failed_redial before m env, some request_ended)

-- From the change of the fields on.
unfoldable pub redial : Manager → Manager → ReconfigureEnv → Reconfigured
redial before m env =
    if not env.open_at_redial
    then (restore_previous before m, some request_ended)
    else if is_active before && before.desired_connection
    then after_redial before (do_connect (record m { desired_connection = true }) env.connect_env)
        env
    else (m, none)

unfoldable pub change_selection : Manager → Manager → DataConfig → ReconfigureEnv → Reconfigured
change_selection before m new env =
    if not env.open_at_change
    then (record m { desired_connection = before.desired_connection }, some request_ended)
    else if is_stopping (if env.stop_began then stopping else m.state)
    then (record m { state = stopping }, some manager_is_stopping)
    else redial before (record m { cfg = with_selection m.cfg new }) env

-- The flag is reset whichever way the call ends.
abbrev pub finished : Reconfigured → Reconfigured
finished r = (record r.0 { reconfiguring_data = false }, r.1)

unfoldable pub stop_and_change : Manager → DataConfig → ReconfigureEnv → Reconfigured
stop_and_change m new env =
    let held : Manager = record m { reconfiguring_data = true; desired_connection = false } in
    let down = do_disconnect held env.stops_v4 env.stops_v6 in
    if down.1
    then change_selection m down.0 new env
    else (record down.0 { desired_connection = m.desired_connection }, some stop_failed)

unfoldable pub reconfigure_data_config : Manager → DataConfig → ReconfigureEnv → Reconfigured
reconfigure_data_config m new env =
    if not new.enable_ipv4 && not new.enable_ipv6
    then (m, some invalid_data_config)
    else if is_stopping m.state
    then (m, some manager_is_stopping)
    else if is_unchanged (selection m.cfg) new
    then (m, none)
    else if not (is_active m)
    then finished (change_selection m (record m { reconfiguring_data = true }) new env)
    else if not env.open_at_stop
    then (m, some request_ended)
    else finished (stop_and_change m new env)
