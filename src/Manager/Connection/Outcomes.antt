-- ===== src/Manager/Connection/Outcomes.antt =====
-- How a connect ends.
use qmi_go.Base.{List, ℕ, ◌≡◌, refl, arith, Bool, true, false, ◌&&◌, ◌||◌, not, Option, none, some}
use qmi_go.Base.{◌==◌, if◌then◌else◌, if_both}
use qmi_go.Manager.Dial.{
  Dialled, ConnectError, DualStackDialResult, GivesHandle, GivesHandleIn, dial_dual_stack-handle,
  dial_recovering-GivesHandle,
}
use qmi_go.Manager.Connection.{
  Manager, connected, disconnected, has_handle, handle_dial_failure, schedule_retry,
}
use qmi_go.Manager.Connection.Connect.{
  StartEnv, check_started, start_default_data_call, FamilyEnv, dial_family, ConnectEnv, Ended,
  finish_connect, with_handles, with_settings, after_dial, dial_default, with_clients,
  establish_with, establish,
}

-- The modem gives a handle other than 0, or 0 with an error.
pub record GivesHandles (env : ConnectEnv) : Type 0 where
  pub first_v4 : GivesHandle env.v4.first.started
  pub second_v4 : GivesHandle env.v4.second.started
  pub first_v6 : GivesHandle env.v6.first.started
  pub second_v6 : GivesHandle env.v6.second.started

check_started-GivesHandle :
    (d : Dialled) (verified : Bool) → GivesHandle d → GivesHandle (check_started d verified).0
unfolding check_started
check_started-GivesHandle (handle, some e) verified g = g
check_started-GivesHandle (handle, none) true g = g
check_started-GivesHandle (handle, none) false g = refl

start-GivesHandle :
    (env : StartEnv) → GivesHandle env.started → GivesHandle (start_default_data_call env).0
unfolding start_default_data_call
start-GivesHandle env g =
    if_both (λ (r : Dialled × List ℕ). GivesHandle r.0) env.verified_before
      (check_started-GivesHandle env.started env.verified_after g) refl

dial_family-GivesHandle :
    (env : FamilyEnv)
    → GivesHandle env.first.started
    → GivesHandle env.second.started
    → GivesHandle (dial_family env)
dial_family-GivesHandle env a b =
    dial_recovering-GivesHandle (start_default_data_call env.first).0
      (start_default_data_call env.second).0 env.stopped (start-GivesHandle env.first a)
      (start-GivesHandle env.second b)

-- The end of a connect that has begun: the state with a handle, or a failure that leaves the state
-- `disconnected`; the configuration and what is desired are as before.
abbrev pub Established : Manager → Ended → Type 0
Established m (d, none) =
    (d.state ≡ connected)
    × (has_handle d ≡ true)
    × (d.cfg ≡ m.cfg)
    × (d.desired_connection ≡ m.desired_connection)
Established m (d, some e) =
    (d.state ≡ disconnected) × (d.cfg ≡ m.cfg) × (d.desired_connection ≡ m.desired_connection)

abbrev Failed : Manager → Manager → Type 0
Failed m d =
    (d.state ≡ disconnected) × (d.cfg ≡ m.cfg) × (d.desired_connection ≡ m.desired_connection)

pub handle_dial_failure-Failed :
    (m : Manager) (active : Bool) → Failed m (handle_dial_failure m active)
unfolding handle_dial_failure schedule_retry
handle_dial_failure-Failed m active =
    if_both (Failed m) (m.reconfiguring_data || (not m.auto_reconnect || not m.desired_connection))
      (refl, refl, refl) (refl, refl, refl)

finish_connect-Established :
    (m : Manager) (env : ConnectEnv) → has_handle m ≡ true → Established m (finish_connect m env)
unfolding finish_connect
finish_connect-Established m env h =
    if_both (Established m) (not env.configured) (handle_dial_failure-Failed m env.active_pdn) (
      if_both (Established m) (not env.verified_network)
        (handle_dial_failure-Failed m env.active_pdn) (refl, h, refl, refl))

with_handles-has_handle :
    (m : Manager) (dial : DualStackDialResult)
    → (not (dial.handle_v4 == 0) || not (dial.handle_v6 == 0)) ≡ true
    → has_handle (with_handles m dial) ≡ true
with_handles-has_handle m dial h = ground (arith, h)

after_dial-Established :
    (m : Manager) (env : ConnectEnv) (dial : DualStackDialResult) (e : Option ConnectError)
    → (e ≡ none → (not (dial.handle_v4 == 0) || not (dial.handle_v6 == 0)) ≡ true)
    → Established m (after_dial m env dial e)
unfolding after_dial
after_dial-Established m env dial (some e) h = handle_dial_failure-Failed m env.active_pdn
after_dial-Established m env dial none h =
    if_both (Established m) env.verified_dial
      (finish_connect-Established (with_settings (with_handles m dial) env) env
        (with_handles-has_handle m dial (h refl)))
      (handle_dial_failure-Failed (with_handles m dial) env.active_pdn)

dial_default-handle :
    (m : Manager) (env : ConnectEnv)
    → GivesHandles env
    → (dial_default m env).err ≡ none
    → (not ((dial_default m env).handle_v4 == 0) || not ((dial_default m env).handle_v6 == 0))
      ≡ true
unfolding dial_default
dial_default-handle m env g e =
    let v6 =
      if_both GivesHandleIn m.has_wds_v6 (dial_family-GivesHandle env.v6 g.first_v6 g.second_v6)
        tt in
    dial_dual_stack-handle m.cfg.enable_ipv4 m.cfg.enable_ipv6 (dial_family env.v4)
      (if m.has_wds_v6 then some (dial_family env.v6) else none)
      (dial_family-GivesHandle env.v4 g.first_v4 g.second_v4) v6 e

establish_with-Established :
    (m : Manager) (env : ConnectEnv) → GivesHandles env → Established m (establish_with m env)
unfolding establish_with
establish_with-Established m env g =
    let failed = handle_dial_failure-Failed m env.active_pdn in
    if_both (Established m) (not env.topology_ready) failed (
      if_both (Established m) (not m.has_wds && not m.has_wds_v6) failed (
        if_both (Established m) (env.needs_binding && not env.binding_found) failed (
          after_dial-Established m env (dial_default m env) (dial_default m env).err
            (dial_default-handle m env g))))

pub establish-Established :
    (m : Manager) (env : ConnectEnv) → GivesHandles env → Established m (establish m env)
unfolding establish
establish-Established m env g = establish_with-Established (with_clients m env) env g
