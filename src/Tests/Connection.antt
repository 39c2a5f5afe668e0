-- ===== src/Tests/Connection.antt =====
-- The default data call: pkg/manager/manager.go, default_data_bearer.go and data_config.go.
use qmi_go.Manager.Dial.{dial_dual_stack, dial_recovering_no_effect, connect_error, is_no_effect}
use qmi_go.Base.{◌≡◌, refl, arith, true, false, none, some, [], ◌∷◌}
use qmi_go.Manager.Connection.{
  Manager, DataSettings, disconnected, connected, is_connected, is_connecting, is_stopping,
}
use qmi_go.Manager.Connection.Connect.{
  StartEnv, FamilyEnv, ConnectEnv, ask_connect, ask_disconnect, connect, lost, CheckEnv,
  finish_status_check, do_connect, connect_body, cleanup_after, establish, establish_with,
  dial_default, after_dial, finish_connect, check_started, start_default_data_call,
}
use qmi_go.Manager.Connection.Outcomes.{GivesHandles}
use qmi_go.Manager.Connection.Invariant.{IsValid}
use qmi_go.Manager.Connection.History.{
  initial, stepped, connects, asks_disconnect, checked, Reachable-IsValid,
}
use qmi_go.Manager.Connection.Bearer.{
  BearerEnv, Bearer, connect_default_data_bearer, connect_default_data_bearer-Bearer,
}
use qmi_go.Manager.Connection.Reconfigure.{DataConfig, ReconfigureEnv, reconfigure_data_config}
use qmi_go.Manager.Connection.Reconfigure.Outcome.{Outcome, reconfigure_data_config-Outcome}

abbrev internet : DataSettings
internet = record {
  apn = "internet";
  username = "";
  password = "";
  auth_type = 0;
  enable_ipv4 = true;
  enable_ipv6 = false;
  data_mtu_v4 = 1500;
  data_mtu_v6 = 0;
  guard_id = none;
  verify_id = none;
  explicit_auth = false;
}

abbrev new_manager : Manager
new_manager = record {
  state = disconnected;
  core_ready = true;
  desired_connection = false;
  reconfiguring_data = false;
  cfg = internet;
  auto_reconnect = true;
  radio_reset_after = 3;
  retry_delays = 5 ∷ 10 ∷ [];
  retry_count = 0;
  has_wds = true;
  has_wds_v6 = false;
  handle_v4 = 0;
  handle_v6 = 0;
  settings = none;
  stops = [];
  events = [];
  scheduled = [];
  start_events = 0;
  radio_resets = 0;
}

abbrev answered : StartEnv
answered = record { verified_before = true; started = (77, none); verified_after = true }

abbrev family : FamilyEnv
family = record { first = answered; stopped = true; second = answered }

abbrev network : ConnectEnv
network = record {
  guard_holds = true;
  topology_ready = true;
  has_wds = true;
  has_wds_v6 = false;
  needs_binding = false;
  binding_found = false;
  v4 = family;
  v6 = family;
  verified_dial = true;
  configured = true;
  new_settings = some 1;
  verified_network = true;
  active_pdn = false;
  stops_v4 = true;
  stops_v6 = true;
}

network-GivesHandles : GivesHandles network
network-GivesHandles = record {
  first_v4 = omega arith;
  second_v4 = omega arith;
  first_v6 = omega arith;
  second_v6 = omega arith;
}

connects_network : (connect new_manager network).0.state ≡ connected
unfolding connect ask_connect do_connect connect_body cleanup_after establish establish_with
    dial_default after_dial finish_connect check_started start_default_data_call dial_dual_stack
    dial_recovering_no_effect connect_error is_connected is_connecting is_stopping is_no_effect
connects_network = refl

abbrev finds_lost : CheckEnv
finds_lost = record { found = lost; new_settings = none; stops_v4 = true; stops_v6 = true }

-- A Disconnect begins, and a check that began before it finds the connection lost.
abbrev checked_late : Manager
checked_late =
    finish_status_check connected true (ask_disconnect (connect new_manager network).0) finds_lost

Reachable-IsValid_example : IsValid checked_late
unfolding is_connecting
Reachable-IsValid_example = Reachable-IsValid (
    stepped
      (stepped (stepped (initial refl refl) (connects network network-GivesHandles))
        asks_disconnect)
      (checked connected true finds_lost refl))

abbrev bearer_env : BearerEnv
bearer_env = record {
  context_open = true;
  connect_env = network;
  context_still_open = false;
  cleanup_v4 = true;
  cleanup_v6 = true;
}

connect_default_data_bearer-Bearer_example :
    Bearer new_manager internet (connect_default_data_bearer new_manager internet bearer_env)
connect_default_data_bearer-Bearer_example =
    connect_default_data_bearer-Bearer new_manager internet bearer_env network-GivesHandles

abbrev online : Manager
online = record new_manager { state = connected; handle_v4 = 77; desired_connection = true }

abbrev ims : DataConfig
ims = record { apn = "ims"; enable_ipv4 = true; enable_ipv6 = true }

abbrev reconfigure_env : ReconfigureEnv
reconfigure_env = record {
  open_at_stop = true;
  stops_v4 = true;
  stops_v6 = true;
  open_at_change = true;
  stop_began = false;
  open_at_redial = true;
  connect_env = network;
  open_at_end = true;
  cleanup_v4 = true;
  cleanup_v6 = true;
}

reconfigure_data_config-Outcome_example :
    Outcome online ims (reconfigure_data_config online ims reconfigure_env)
reconfigure_data_config-Outcome_example =
    reconfigure_data_config-Outcome online ims reconfigure_env network-GivesHandles
