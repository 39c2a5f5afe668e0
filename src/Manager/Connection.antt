-- ===== src/Manager/Connection.antt =====
-- pkg/manager/manager.go and pkg/manager/default_data_bearer.go: the default data call. Each function
-- is one call with dataOpMu held, from its start to its end, or what another call does without it in one
-- go. What modem, network and host do in it is an argument. `stops` holds the
-- StopNetworkInterface requests that were made, `events` what was emitted,
-- and `scheduled` the delays after which eventStart will be queued.
pub mod Connect
pub mod Invariant
pub mod Outcomes
pub mod History
pub mod Bearer
pub mod Reconfigure
use Prim.Native.String.{String}
use qmi_go.Base.{ℕ, ◌+◌, ◌-◌, List, [], ◌∷◌, ◌++◌, Bool, true, false, ◌&&◌, ◌||◌, not}
use qmi_go.Base.{length, get_or, ltb, ◌==◌, if◌then◌else◌, Option, none, some}
use qmi_go.Manager.Dial.{ConnectError, IpFamily, family_v4, family_v6}

-- `State`
pub data ConnState : Type 0 where
  disconnected connecting connected stopping : ConnState

unfoldable pub is_connected : ConnState → Bool
is_connected connected = true
is_connected disconnected = false
is_connected connecting = false
is_connected stopping = false

unfoldable pub is_connecting : ConnState → Bool
is_connecting connecting = true
is_connecting disconnected = false
is_connecting connected = false
is_connecting stopping = false

unfoldable pub is_stopping : ConnState → Bool
is_stopping stopping = true
is_stopping disconnected = false
is_stopping connecting = false
is_stopping connected = false

unfoldable pub is_disconnected : ConnState → Bool
is_disconnected disconnected = true
is_disconnected connecting = false
is_disconnected connected = false
is_disconnected stopping = false

-- The fields of `Config` that a data call is set up with. A guard and a verification are closures, and
-- stand here by a number each.
pub record DataSettings : Type 0 where
  pub apn : String
  pub username : String
  pub password : String
  pub auth_type : ℕ
  pub enable_ipv4 : Bool
  pub enable_ipv6 : Bool
  pub data_mtu_v4 : ℕ
  pub data_mtu_v6 : ℕ
  pub guard_id : Option ℕ
  pub verify_id : Option ℕ
  pub explicit_auth : Bool

pub data EventKind : Type 0 where
  event_connected event_disconnected event_dial_failed event_reconnecting : EventKind

pub record Manager : Type 0 where
  pub state : ConnState
  pub core_ready : Bool
  pub desired_connection : Bool
  pub reconfiguring_data : Bool
  pub cfg : DataSettings
  pub auto_reconnect : Bool
  pub radio_reset_after : ℕ
  pub retry_delays : List ℕ
  pub retry_count : ℕ
  pub has_wds : Bool
  pub has_wds_v6 : Bool
  pub handle_v4 : ℕ
  pub handle_v6 : ℕ
  pub settings : Option ℕ
  pub stops : List (IpFamily × ℕ)
  pub events : List EventKind
  pub scheduled : List ℕ
  pub start_events : ℕ
  pub radio_resets : ℕ

abbrev pub emit : Manager → EventKind → Manager
emit m e = record m { events = m.events ++ (e ∷ []) }

abbrev pub has_handle : Manager → Bool
has_handle m = not (m.handle_v4 == 0) || not (m.handle_v6 == 0)

-- The stop of one family: a request where there is a handle and a client.
abbrev pub stop_of : IpFamily → ℕ → Bool → List (IpFamily × ℕ)
stop_of family handle has_client =
    if not (handle == 0) && has_client then (family, handle) ∷ [] else []

-- The error of a stop counts only where it was asked for.
abbrev pub stop_fails : ℕ → Bool → Bool → Bool
stop_fails handle has_client succeeds = not (handle == 0) && (has_client && not succeeds)

-- `doDisconnectWithContextLocked`, where the two stops succeed or not. The second part is whether the
-- error is nil.
unfoldable pub do_disconnect : Manager → Bool → Bool → Manager × Bool
do_disconnect m stops_v4 stops_v6 =
    let down : Manager = record m {
      stops =
          m.stops
          ++ (stop_of family_v4 m.handle_v4 m.has_wds
              ++ stop_of family_v6 m.handle_v6 m.has_wds_v6);
      handle_v4 = 0;
      handle_v6 = 0;
      settings = none;
      state = disconnected;
    } in
    (
      emit down event_disconnected,
      not (stop_fails m.handle_v4 m.has_wds stops_v4)
          && not (stop_fails m.handle_v6 m.has_wds_v6 stops_v6),
    )

-- `getRetryDelay`: the delays by count, and then the last one.
unfoldable pub get_retry_delay : Manager → ℕ
get_retry_delay m =
    if ltb m.retry_count (length m.retry_delays)
    then get_or m.retry_delays m.retry_count 0
    else get_or m.retry_delays (length m.retry_delays - 1) 0

-- The retry of `handleDialFailure`, after its guard.
unfoldable pub schedule_retry : Manager → Bool → Manager
schedule_retry m active_pdn =
    emit
      (record m {
        retry_count = m.retry_count + 1;
        radio_resets =
            if m.retry_count + 1 == m.radio_reset_after && not active_pdn
            then m.radio_resets + 1
            else m.radio_resets;
        scheduled = m.scheduled ++ (get_retry_delay m ∷ []);
      })
      event_reconnecting

-- `handleDialFailure`; `active_pdn` is `hasActiveManagedPDN`.
unfoldable pub handle_dial_failure : Manager → Bool → Manager
handle_dial_failure m active_pdn =
    let failed = emit (record m { state = disconnected }) event_dial_failed in
    if m.reconfiguring_data || (not m.auto_reconnect || not m.desired_connection)
    then failed
    else schedule_retry failed active_pdn

-- `cleanupFailedDefaultDataCall`
unfoldable pub cleanup_failed_call : Manager → Bool → Bool → Manager
cleanup_failed_call m stops_v4 stops_v6 =
    if m.cfg.explicit_auth && has_handle m then (do_disconnect m stops_v4 stops_v6).0 else m
