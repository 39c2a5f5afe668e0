-- ===== src/Manager/Connection/Invariant.antt =====
-- What holds between two calls: no connect is under way, the state `connected` has a handle, and a
-- bearer with its own authentication has none in the state `disconnected`.
use qmi_go.Base.{
  ◌≡◌, refl, ap, arith, ◌⊎◌, if_split, Bool, true, false, ◌&&◌, ◌||◌, not, none, some,
}
use qmi_go.Base.{if_both, inl, inr}
use qmi_go.Manager.Connection.{
  Manager, ConnState, disconnected, connecting, connected, stopping, has_handle, is_connected,
  is_stopping, is_connecting, is_disconnected, do_disconnect, cleanup_failed_call,
}
use qmi_go.Manager.Connection.Connect.{
  ConnectEnv, Ended, connect_body, cleanup_after, do_connect, connect, disconnect, establish,
  Finding, nothing_found, lost, agrees, differs, unchecked, CheckEnv, reconnect, connection_lost,
  check_connected, finish_status_check, ask_connect, ask_disconnect,
}
use qmi_go.Manager.Connection.Outcomes.{Established, GivesHandles, establish-Established}

pub record IsValid (m : Manager) : Type 0 where
  pub settled : is_connecting m.state ≡ false
  pub carried : (is_connected m.state && not (has_handle m)) ≡ false
  pub cleaned : (m.cfg.explicit_auth && (is_disconnected m.state && has_handle m)) ≡ false

pub do_disconnect-IsValid :
    (m : Manager) (stops_v4 stops_v6 : Bool) → IsValid (do_disconnect m stops_v4 stops_v6).0
unfolding do_disconnect is_connecting is_connected is_disconnected
do_disconnect-IsValid m stops_v4 stops_v6 = record {
  settled = refl;
  carried = refl;
  cleaned = ground arith;
}

cleanup-IsValid :
    (m : Manager) (stops_v4 stops_v6 : Bool)
    → m.state ≡ disconnected
    → IsValid (cleanup_failed_call m stops_v4 stops_v6)
unfolding cleanup_failed_call is_connecting is_connected
cleanup-IsValid m stops_v4 stops_v6 e =
    if_split IsValid (m.cfg.explicit_auth && has_handle m)
      (λ _. do_disconnect-IsValid m stops_v4 stops_v6)
      (λ clean. record {
        settled = ap is_connecting e;
        carried = ground (arith, ap is_connected e);
        cleaned = ground (arith, clean);
      })

-- What the cleanup at the end of a connect turns into a valid state.
abbrev Settles : Ended → Type 0
Settles (d, none) = IsValid d
Settles (d, some e) = IsValid d ⊎ (d.state ≡ disconnected)

cleanup_after-IsValid : (r : Ended) (env : ConnectEnv) → Settles r → IsValid (cleanup_after r env).0
unfolding cleanup_after cleanup_failed_call
cleanup_after-IsValid (d, none) env v = v
cleanup_after-IsValid (d, some e) env (inl v) =
    if_both IsValid (d.cfg.explicit_auth && has_handle d)
      (do_disconnect-IsValid d env.stops_v4 env.stops_v6) v
cleanup_after-IsValid (d, some e) env (inr down) = cleanup-IsValid d env.stops_v4 env.stops_v6 down

Established-Settles : (m : Manager) (r : Ended) → Established m r → Settles r
unfolding is_connecting is_connected is_disconnected
Established-Settles m (d, none) h = record {
  settled = ap is_connecting h.0;
  carried = ground (arith, h.1);
  cleaned = ground (arith, ap is_disconnected h.0);
}
Established-Settles m (d, some e) h = inr h.0

pub do_connect-IsValid :
    (m : Manager) (env : ConnectEnv) → GivesHandles env → IsValid m → IsValid (do_connect m env).0
unfolding do_connect connect_body
do_connect-IsValid m env g v =
    let begun : Manager = record m { state = connecting } in
    cleanup_after-IsValid (connect_body m env) env (
      if_both Settles (not env.guard_holds) (inl v) (
        if_both Settles (not m.desired_connection) v (
          if_both Settles (is_connected m.state || (is_stopping m.state || is_connecting m.state)) v
            (Established-Settles begun (establish begun env) (establish-Established begun env g)))))

desired-IsValid :
    (m : Manager) (desired : Bool) → IsValid m → IsValid (record m { desired_connection = desired })
desired-IsValid m desired v = record {
  settled = v.settled;
  carried = v.carried;
  cleaned = v.cleaned;
}

pub ask_connect-IsValid : (m : Manager) → IsValid m → IsValid (ask_connect m)
unfolding ask_connect
ask_connect-IsValid m v =
    if_both IsValid (not m.core_ready || is_stopping m.state) v (desired-IsValid m true v)

pub ask_disconnect-IsValid : (m : Manager) → IsValid m → IsValid (ask_disconnect m)
unfolding ask_disconnect
ask_disconnect-IsValid m v =
    if_both IsValid (not m.core_ready || is_stopping m.state) v (desired-IsValid m false v)

pub connect-IsValid :
    (m : Manager) (env : ConnectEnv) → GivesHandles env → IsValid m → IsValid (connect m env).0
unfolding connect
connect-IsValid m env g v =
    let P = λ (r : Ended). IsValid r.0 in
    if_both P (not m.core_ready || is_stopping m.state) v (
      if_both P (is_connected m.state || is_connecting m.state) (ask_connect-IsValid m v)
        (do_connect-IsValid (ask_connect m) env g (ask_connect-IsValid m v)))

pub disconnect-IsValid :
    (m : Manager) (stops_v4 stops_v6 : Bool)
    → IsValid m
    → IsValid (disconnect m stops_v4 stops_v6).0
unfolding disconnect
disconnect-IsValid m stops_v4 stops_v6 v =
    let P = λ (r : Manager × Bool). IsValid r.0 in
    if_both P (not m.core_ready || is_stopping m.state) v (
      if_both P (has_handle m || (is_connected m.state || is_connecting m.state))
        (do_disconnect-IsValid (ask_disconnect m) stops_v4 stops_v6) (ask_disconnect-IsValid m v))

reconnect-IsValid : (desired : Bool) (m : Manager) → IsValid m → IsValid (reconnect desired m)
unfolding reconnect
reconnect-IsValid desired m v =
    if_both IsValid (m.auto_reconnect && (desired && not (is_stopping m.state)))
      (record { settled = v.settled; carried = v.carried; cleaned = v.cleaned }) v

connection_lost-IsValid : (m : Manager) → IsValid (connection_lost m)
unfolding is_connecting is_connected is_disconnected
connection_lost-IsValid m = record { settled = refl; carried = refl; cleaned = ground arith }

check_connected-IsValid :
    (desired : Bool) (m : Manager) (env : CheckEnv) (found : Finding)
    → IsValid m
    → IsValid (check_connected desired m env found)
unfolding check_connected
check_connected-IsValid desired m env nothing_found v = v
check_connected-IsValid desired m env lost v =
    reconnect-IsValid desired (connection_lost m) (connection_lost-IsValid m)
check_connected-IsValid desired m env agrees v = v
check_connected-IsValid desired m env unchecked v = v
check_connected-IsValid desired m env differs v =
    reconnect-IsValid desired (do_disconnect m env.stops_v4 env.stops_v6).0
      (do_disconnect-IsValid m env.stops_v4 env.stops_v6)

-- Whatever the manager is by then; one that read `connecting` is left out.
pub finish_status_check-IsValid :
    (seen : ConnState) (desired : Bool) (m : Manager) (env : CheckEnv)
    → is_connecting seen ≡ false
    → IsValid m
    → IsValid (finish_status_check seen desired m env)
unfolding finish_status_check is_connecting
finish_status_check-IsValid disconnected desired m env e v = v
finish_status_check-IsValid stopping desired m env e v = v
finish_status_check-IsValid connecting desired m env e v = cc
finish_status_check-IsValid connected desired m env e v =
    check_connected-IsValid desired m env env.found v
