-- ===== src/Manager/Connection/Connect.antt =====
-- `doConnectLockedContext`, `startDefaultDataCall`, `Connect`, `Disconnect` and `doStatusCheck`.
use qmi_go.Base.{ℕ, ◌+◌, List, [], ◌∷◌, Bool, true, false, ◌&&◌, ◌||◌, not}
use qmi_go.Base.{◌==◌, if◌then◌else◌, Option, none, some}
use qmi_go.Manager.Dial.{
  other_error, Dialled, ConnectError, DualStackDialResult, dial_dual_stack,
  dial_recovering_no_effect,
}
use qmi_go.Manager.Connection.{
  Manager, ConnState, disconnected, connecting, connected, stopping, is_connected, is_connecting,
  is_stopping, emit, event_connected, event_disconnected, event_reconnecting, has_handle,
  do_disconnect, handle_dial_failure, cleanup_failed_call,
}

-- One `startDefaultDataCall`: the two verifications, and what the modem answers between them.
pub record StartEnv : Type 0 where
  pub verified_before : Bool
  pub started : Dialled
  pub verified_after : Bool

-- The result, and the handle that is stopped again: the part after the modem's answer, and the whole.
unfoldable pub check_started : Dialled → Bool → Dialled × List ℕ
check_started (handle, some e) verified = ((handle, some e), [])
check_started (handle, none) true = ((handle, none), [])
check_started (handle, none) false = ((0, some other_error), handle ∷ [])

unfoldable pub start_default_data_call : StartEnv → Dialled × List ℕ
start_default_data_call env =
    if env.verified_before
    then check_started env.started env.verified_after
    else ((0, some other_error), [])

pub record FamilyEnv : Type 0 where
  pub first : StartEnv
  pub stopped : Bool
  pub second : StartEnv

abbrev pub dial_family : FamilyEnv → Dialled
dial_family env =
    (dial_recovering_no_effect (start_default_data_call env.first).0 env.stopped
      (start_default_data_call env.second).0).0

pub record ConnectEnv : Type 0 where
  -- `defaultDataGuard`, and `EnsureDataPlaneTopology` with the clients that are there after it.
  pub guard_holds : Bool
  pub topology_ready : Bool
  pub has_wds : Bool
  pub has_wds_v6 : Bool
  -- QMAP with a default mux, and whether its binding is found.
  pub needs_binding : Bool
  pub binding_found : Bool
  pub v4 : FamilyEnv
  pub v6 : FamilyEnv
  -- The verifications after the dial and after the configuration, and the settings it reads.
  pub verified_dial : Bool
  pub configured : Bool
  pub new_settings : Option ℕ
  pub verified_network : Bool
  -- `hasActiveManagedPDN`, and the stops of a cleanup.
  pub active_pdn : Bool
  pub stops_v4 : Bool
  pub stops_v6 : Bool

pub data ConnError : Type 0 where
  canceled topology_failed wds_not_available no_binding not_current not_configured : ConnError
  dial_failed : ConnectError → ConnError

abbrev pub Ended : Type 0
Ended = Manager × Option ConnError

abbrev pub failed_by : Manager → ConnectEnv → ConnError → Ended
failed_by m env e = (handle_dial_failure m env.active_pdn, some e)

-- From a network that is configured on.
unfoldable pub finish_connect : Manager → ConnectEnv → Ended
finish_connect m env =
    if not env.configured
    then failed_by m env not_configured
    else if not env.verified_network
    then failed_by m env not_current
    else (emit (record m { state = connected; retry_count = 0 }) event_connected, none)

abbrev pub with_handles : Manager → DualStackDialResult → Manager
with_handles m dial = record m {
  handle_v4 = if dial.handle_v4 == 0 then m.handle_v4 else dial.handle_v4;
  handle_v6 = if dial.handle_v6 == 0 then m.handle_v6 else dial.handle_v6;
}

-- What `configureNetwork` has read stays where it fails later.
abbrev pub with_settings : Manager → ConnectEnv → Manager
with_settings m env = record m {
  settings = elim env.new_settings [ none ↦ m.settings | some s ↦ some s ];
}

-- The last argument is the error of the dial.
unfoldable pub after_dial : Manager → ConnectEnv → DualStackDialResult → Option ConnectError → Ended
after_dial m env dial (some e) = failed_by m env (dial_failed e)
after_dial m env dial none =
    if env.verified_dial
    then finish_connect (with_settings (with_handles m dial) env) env
    else failed_by (with_handles m dial) env not_current

unfoldable pub dial_default : Manager → ConnectEnv → DualStackDialResult
dial_default m env =
    dial_dual_stack m.cfg.enable_ipv4 m.cfg.enable_ipv6 (dial_family env.v4)
      (if m.has_wds_v6 then some (dial_family env.v6) else none)

-- From the topology on.
unfoldable pub establish_with : Manager → ConnectEnv → Ended
establish_with m env =
    if not env.topology_ready
    then failed_by m env topology_failed
    else if not m.has_wds && not m.has_wds_v6
    then failed_by m env wds_not_available
    else if env.needs_binding && not env.binding_found
    then failed_by m env no_binding
    else after_dial m env (dial_default m env) (dial_default m env).err

abbrev pub with_clients : Manager → ConnectEnv → Manager
with_clients m env = record m { has_wds = env.has_wds; has_wds_v6 = env.has_wds_v6 }

-- From the state `connecting` on.
unfoldable pub establish : Manager → ConnectEnv → Ended
establish m env = establish_with (with_clients m env) env

unfoldable pub connect_body : Manager → ConnectEnv → Ended
connect_body m env =
    if not env.guard_holds
    then (m, some canceled)
    else if not m.desired_connection
    then (m, none)
    else if is_connected m.state || (is_stopping m.state || is_connecting m.state)
    then (m, none)
    else establish (record m { state = connecting }) env

-- The deferred cleanup comes after the body.
unfoldable pub cleanup_after : Ended → ConnectEnv → Ended
cleanup_after (m, none) env = (m, none)
cleanup_after (m, some e) env = (cleanup_failed_call m env.stops_v4 env.stops_v6, some e)

unfoldable pub do_connect : Manager → ConnectEnv → Ended
do_connect m env = cleanup_after (connect_body m env) env

-- What `Connect` and `Disconnect` do before they ask for dataOpMu.
unfoldable pub ask_connect : Manager → Manager
ask_connect m =
    if not m.core_ready || is_stopping m.state then m else record m { desired_connection = true }

unfoldable pub ask_disconnect : Manager → Manager
ask_disconnect m =
    if not m.core_ready || is_stopping m.state then m else record m { desired_connection = false }

-- `Connect` with nothing between that and doConnect; an error of its guards is `canceled` here, and
-- changes nothing.
unfoldable pub connect : Manager → ConnectEnv → Ended
connect m env =
    if not m.core_ready || is_stopping m.state
    then (m, some canceled)
    else if is_connected m.state || is_connecting m.state
    then (ask_connect m, none)
    else do_connect (ask_connect m) env

-- `Disconnect` in the same way: true is a nil error.
unfoldable pub disconnect : Manager → Bool → Bool → Manager × Bool
disconnect m stops_v4 stops_v6 =
    if not m.core_ready || is_stopping m.state
    then (m, false)
    else if has_handle m || (is_connected m.state || is_connecting m.state)
    then ((do_disconnect (ask_disconnect m) stops_v4 stops_v6).0, true)
    else (ask_disconnect m, true)

-- What the status check finds: nothing, where it is not made or gets no answer, or the packet service,
-- and where that is connected whether the addresses were looked at and agree.
pub data Finding : Type 0 where
  nothing_found lost agrees differs unchecked : Finding

-- What `configureNetwork` reads where it is called, and the stops of a disconnect.
pub record CheckEnv : Type 0 where
  pub found : Finding
  pub new_settings : Option ℕ
  pub stops_v4 : Bool
  pub stops_v6 : Bool

abbrev pub request_start : Manager → Manager
request_start m = emit (record m { start_events = m.start_events + 1 }) event_reconnecting

-- The trigger of a reconnect, where the check read the desired connection when it began.
unfoldable pub reconnect : Bool → Manager → Manager
reconnect desired m =
    if m.auto_reconnect && (desired && not (is_stopping m.state)) then request_start m else m

abbrev pub restored : Manager → CheckEnv → Manager
restored m env =
    emit
      (record m {
        settings = elim env.new_settings [ none ↦ m.settings | some s ↦ some s ];
        state = connected;
        retry_count = 0;
      })
      event_connected

abbrev pub connection_lost : Manager → Manager
connection_lost m =
    emit (record m { handle_v4 = 0; handle_v6 = 0; state = disconnected }) event_disconnected

-- The end of a `doStatusCheck` that read the state `connected`.
unfoldable pub check_connected : Bool → Manager → CheckEnv → Finding → Manager
check_connected desired m env nothing_found = m
check_connected desired m env lost = reconnect desired (connection_lost m)
check_connected desired m env agrees = m
check_connected desired m env unchecked = m
check_connected desired m env differs =
    reconnect desired (do_disconnect m env.stops_v4 env.stops_v6).0

-- And of one that read `connecting`.
unfoldable pub check_connecting : Manager → CheckEnv → Finding → Manager
check_connecting m env nothing_found = m
check_connecting m env lost = m
check_connecting m env agrees = restored m env
check_connecting m env unchecked = restored m env
check_connecting m env differs = restored m env

-- `doStatusCheck` holds no lock between what it reads, which is the state and the desired connection, and
-- what it does after the answer of the modem: by then the manager may be another one.
unfoldable pub finish_status_check : ConnState → Bool → Manager → CheckEnv → Manager
finish_status_check disconnected desired m env = m
finish_status_check stopping desired m env = m
finish_status_check connecting desired m env = check_connecting m env env.found
finish_status_check connected desired m env = check_connected desired m env env.found
