-- ===== src/Manager/Connection/Bearer.antt =====
-- `ConnectDefaultDataBearer` of pkg/manager/default_data_bearer.go. A negative MTU has no counterpart.
use qmi_go.Base.{
  ◌≡◌, refl, arith, Bool, true, false, ◌&&◌, ◌||◌, not, Option, none, some, ◌⊎◌, inl, inr,
}
use qmi_go.Base.{ltb, if◌then◌else◌, if_both, if_split}
use qmi_go.Manager.Connection.{
  Manager, DataSettings, connected, connecting, disconnected, is_connected, is_connecting,
  is_stopping, is_disconnected, has_handle, do_disconnect, cleanup_failed_call,
}
use qmi_go.Manager.Connection.Connect.{
  ConnectEnv, ConnError, Ended, do_connect, connect_body, cleanup_after, establish,
}
use qmi_go.Manager.Connection.Outcomes.{Established, GivesHandles, establish-Established}
use qmi_go.Manager.Connection.Invariant.{IsValid, do_connect-IsValid}

pub data BearerError : Type 0 where
  invalid_config core_not_ready data_call_active context_ended : BearerError
  not_connected : ConnError → BearerError

pub record BearerEnv : Type 0 where
  pub context_open : Bool
  pub connect_env : ConnectEnv
  -- The context after the dial, and the stops of the cleanup.
  pub context_still_open : Bool
  pub cleanup_v4 : Bool
  pub cleanup_v6 : Bool

unfoldable pub is_valid_request : DataSettings → Bool
is_valid_request r =
    not (ltb 3 r.auth_type)
    && ((r.enable_ipv4 || r.enable_ipv6)
        && (not (ltb 65535 r.data_mtu_v4) && not (ltb 65535 r.data_mtu_v6)))

abbrev pub is_active : Manager → Bool
is_active m = is_connected m.state || (is_connecting m.state || has_handle m)

-- The whole set is committed at once; the authentication of a request is explicit.
abbrev pub committed : Manager → DataSettings → Manager
committed m request = record m {
  cfg = record request { explicit_auth = true };
  desired_connection = true;
}

-- The calls that failed are stopped, and what was committed is taken back.
unfoldable pub rolled_back : Manager → Manager → BearerEnv → Manager
rolled_back before m env = record (do_disconnect m env.cleanup_v4 env.cleanup_v6).0 {
  cfg = before.cfg;
  desired_connection = before.desired_connection;
}

unfoldable pub after_bearer_dial : Manager → Ended → BearerEnv → Manager × Option BearerError
after_bearer_dial before (m, some e) env = (rolled_back before m env, some (not_connected e))
after_bearer_dial before (m, none) env =
    if env.context_still_open then (m, none) else (rolled_back before m env, some context_ended)

unfoldable pub connect_default_data_bearer :
    Manager → DataSettings → BearerEnv → Manager × Option BearerError
connect_default_data_bearer m request env =
    if not (is_valid_request request)
    then (m, some invalid_config)
    else if not env.context_open
    then (m, some context_ended)
    else if not m.core_ready || is_stopping m.state
    then (m, some core_not_ready)
    else if is_active m
    then (m, some data_call_active)
    else after_bearer_dial m (do_connect (committed m request) env.connect_env) env

-- The end of a bearer call: the request holds and is connected; or the call fails, and the settings and
-- what is desired are as before, and no data call is left or the manager has not been touched.
abbrev pub Bearer : Manager → DataSettings → Manager × Option BearerError → Type 0
Bearer m request (d, none) =
    (d.state ≡ connected)
    × (has_handle d ≡ true)
    × (d.cfg ≡ record request { explicit_auth = true })
Bearer m request (d, some e) =
    (d.cfg ≡ m.cfg)
    × (d.desired_connection ≡ m.desired_connection)
    × ((d ≡ m) ⊎ ((d.state ≡ disconnected) × (has_handle d ≡ false)))

-- A connect that returns no error has established the call.
abbrev pub Dialling : Manager → Ended → Type 0
Dialling m (d, none) = (d.state ≡ connected) × (has_handle d ≡ true) × (d.cfg ≡ m.cfg)
Dialling m (d, some e) = Unit

Established-Dialling : (m : Manager) (r : Ended) → Established m r → Dialling m r
Established-Dialling m (d, none) h = (h.0, h.1, h.2)
Established-Dialling m (d, some e) h = tt

cleanup_after-Dialling :
    (m : Manager) (r : Ended) (env : ConnectEnv) → Dialling m r → Dialling m (cleanup_after r env)
unfolding cleanup_after
cleanup_after-Dialling m (d, none) env h = h
cleanup_after-Dialling m (d, some e) env h = tt

pub do_connect-Dialling :
    (m : Manager) (env : ConnectEnv)
    → GivesHandles env
    → m.desired_connection ≡ true
    → (is_connected m.state || (is_stopping m.state || is_connecting m.state)) ≡ false
    → Dialling m (do_connect m env)
unfolding do_connect connect_body
do_connect-Dialling m env g desired idle =
    let begun : Manager = record m { state = connecting } in
    cleanup_after-Dialling m (connect_body m env) env (
      if_both (Dialling m) (not env.guard_holds) tt (
        if_split (Dialling m) (not m.desired_connection)
          (λ no. absurd (ground (arith, no, desired)))
          (λ _.
            if_split (Dialling m)
              (is_connected m.state || (is_stopping m.state || is_connecting m.state))
              (λ busy. absurd (ground (arith, busy, idle)))
              (λ _.
                Established-Dialling begun (establish begun env)
                  (establish-Established begun env g)))))

rolled_back-Bearer :
    (before m : Manager) (request : DataSettings) (env : BearerEnv) (e : BearerError)
    → Bearer before request (rolled_back before m env, some e)
unfolding rolled_back do_disconnect
rolled_back-Bearer before m request env e = (refl, refl, inr (refl, refl))

after_bearer_dial-Bearer :
    (before : Manager) (request : DataSettings) (r : Ended) (env : BearerEnv)
    → Dialling (committed before request) r
    → Bearer before request (after_bearer_dial before r env)
unfolding after_bearer_dial
after_bearer_dial-Bearer before request (m, some e) env h =
    rolled_back-Bearer before m request env (not_connected e)
after_bearer_dial-Bearer before request (m, none) env h =
    if_both (Bearer before request) env.context_still_open h
      (rolled_back-Bearer before m request env context_ended)

-- Where the modem gives a handle other than 0 with each success and 0 with each error, a request for the
-- default bearer is all or nothing: without an error it is connected with exactly the
-- requested settings and a handle; with one, the settings and what is desired are as they were, and
-- either nothing at all has changed or no handle is left in the state `disconnected`.
pub connect_default_data_bearer-Bearer :
    (m : Manager) (request : DataSettings) (env : BearerEnv)
    → GivesHandles env.connect_env
    → Bearer m request (connect_default_data_bearer m request env)
unfolding connect_default_data_bearer
connect_default_data_bearer-Bearer m request env g =
    let P = Bearer m request in
    let same : (m.cfg ≡ m.cfg)
        × (m.desired_connection ≡ m.desired_connection)
        × ((m ≡ m) ⊎ ((m.state ≡ disconnected) × (has_handle m ≡ false))) =
      (refl, refl, inl refl) in
    if_both P (not (is_valid_request request)) same (
      if_both P (not env.context_open) same (
        if_split P (not m.core_ready || is_stopping m.state) (λ _. same)
          (λ ready.
            if_split P (is_active m) (λ _. same)
              (λ idle.
                after_bearer_dial-Bearer m request
                  (do_connect (committed m request) env.connect_env) env
                  (do_connect-Dialling (committed m request) env.connect_env g refl
                    (ground (arith, ready, idle)))))))

rolled_back-IsValid : (before m : Manager) (env : BearerEnv) → IsValid (rolled_back before m env)
unfolding rolled_back do_disconnect is_connecting is_connected is_disconnected
rolled_back-IsValid before m env = record { settled = refl; carried = refl; cleaned = ground arith }

after_bearer_dial-IsValid :
    (before : Manager) (r : Ended) (env : BearerEnv)
    → IsValid r.0
    → IsValid (after_bearer_dial before r env).0
unfolding after_bearer_dial
after_bearer_dial-IsValid before (m, some e) env v = rolled_back-IsValid before m env
after_bearer_dial-IsValid before (m, none) env v =
    if_both (λ (r : Manager × Option BearerError). IsValid r.0) env.context_still_open v
      (rolled_back-IsValid before m env)

committed-IsValid :
    (m : Manager) (request : DataSettings)
    → is_active m ≡ false
    → IsValid m
    → IsValid (committed m request)
committed-IsValid m request idle v = record {
  settled = v.settled;
  carried = v.carried;
  cleaned = ground (arith, idle);
}

pub connect_default_data_bearer-IsValid :
    (m : Manager) (request : DataSettings) (env : BearerEnv)
    → GivesHandles env.connect_env
    → IsValid m
    → IsValid (connect_default_data_bearer m request env).0
unfolding connect_default_data_bearer
connect_default_data_bearer-IsValid m request env g v =
    let P = λ (r : Manager × Option BearerError). IsValid r.0 in
    if_both P (not (is_valid_request request)) v (
      if_both P (not env.context_open) v (
        if_both P (not m.core_ready || is_stopping m.state) v (
          if_split P (is_active m) (λ _. v)
            (λ idle.
              after_bearer_dial-IsValid m (do_connect (committed m request) env.connect_env) env (
                do_connect-IsValid (committed m request) env.connect_env g
                  (committed-IsValid m request idle v))))))

-- No branch of a connect changes the configuration, or what is desired.
abbrev pub KeepsRequest : Manager → Ended → Type 0
KeepsRequest m r = (r.0.cfg ≡ m.cfg) × (r.0.desired_connection ≡ m.desired_connection)

Established-KeepsRequest : (m : Manager) (r : Ended) → Established m r → KeepsRequest m r
Established-KeepsRequest m (d, none) h = (h.2, h.3)
Established-KeepsRequest m (d, some e) h = (h.1, h.2)

cleanup_after-KeepsRequest :
    (m : Manager) (r : Ended) (env : ConnectEnv)
    → KeepsRequest m r
    → KeepsRequest m (cleanup_after r env)
unfolding cleanup_after cleanup_failed_call do_disconnect
cleanup_after-KeepsRequest m (d, none) env h = h
cleanup_after-KeepsRequest m (d, some e) env h =
    if_both (λ (x : Manager). KeepsRequest m (x, some e)) (d.cfg.explicit_auth && has_handle d) h h

pub do_connect-KeepsRequest :
    (m : Manager) (env : ConnectEnv) → GivesHandles env → KeepsRequest m (do_connect m env)
unfolding do_connect connect_body
do_connect-KeepsRequest m env g =
    let begun : Manager = record m { state = connecting } in
    cleanup_after-KeepsRequest m (connect_body m env) env (
      if_both (KeepsRequest m) (not env.guard_holds) (refl, refl)
        (if_both (KeepsRequest m) (not m.desired_connection) (refl, refl)
          (if_both (KeepsRequest m)
            (is_connected m.state || (is_stopping m.state || is_connecting m.state)) (refl, refl)
            (Established-KeepsRequest begun (establish begun env)
              (establish-Established begun env g)))))
