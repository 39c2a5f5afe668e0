-- ===== src/Manager/Connection/History.antt =====
-- The runs of the manager: the calls that hold dataOpMu, in any order, and between them what is done without
-- it, which is the begin of a Connect or of a Disconnect, the end of a status check, and the begin of a Stop.
-- A status check holds dataOpMu only for its own disconnect. One that reads the state during a connect, and
-- whatever is done without dataOpMu in the midst of a call that holds it, is not among the steps.
use qmi_go.Base.{◌≡◌, refl, Bool, false, arith}
use qmi_go.Manager.Connection.{
  Manager, ConnState, DataSettings, stopping, disconnected, is_connected, is_connecting,
  is_disconnected, has_handle, do_disconnect,
}
use qmi_go.Manager.Connection.Connect.{
  ConnectEnv, do_connect, ask_connect, ask_disconnect, connect, disconnect, CheckEnv,
  finish_status_check,
}
use qmi_go.Manager.Connection.Outcomes.{GivesHandles}
use qmi_go.Manager.Connection.Invariant.{
  IsValid, do_connect-IsValid, do_disconnect-IsValid, connect-IsValid, disconnect-IsValid,
  ask_connect-IsValid, ask_disconnect-IsValid, finish_status_check-IsValid,
}
use qmi_go.Manager.Connection.Bearer.{
  BearerEnv, connect_default_data_bearer, connect_default_data_bearer-IsValid,
}
use qmi_go.Manager.Connection.Reconfigure.{DataConfig, ReconfigureEnv, reconfigure_data_config}
use qmi_go.Manager.Connection.Reconfigure.Stable.{reconfigure_data_config-IsValid}

-- `checked` is the end of a status check that began at any time but during a connect; `stop_begins` is what
-- `Stop` does to the state before it waits.
pub data Step : Manager → Manager → Type 0 where
  connects : {m : Manager} (env : ConnectEnv) → GivesHandles env → Step m (connect m env).0
  disconnects : {m : Manager} (stops_v4 stops_v6 : Bool) → Step m (disconnect m stops_v4 stops_v6).0
  starts : {m : Manager} (env : ConnectEnv) → GivesHandles env → Step m (do_connect m env).0
  stops : {m : Manager} (stops_v4 stops_v6 : Bool) → Step m (do_disconnect m stops_v4 stops_v6).0
  asks_connect : {m : Manager} → Step m (ask_connect m)
  asks_disconnect : {m : Manager} → Step m (ask_disconnect m)
  checked :
      {m : Manager} (seen : ConnState) (desired : Bool) (env : CheckEnv)
      → is_connecting seen ≡ false
      → Step m (finish_status_check seen desired m env)
  gets_bearer :
      {m : Manager} (request : DataSettings) (env : BearerEnv)
      → GivesHandles env.connect_env
      → Step m (connect_default_data_bearer m request env).0
  reconfigures :
      {m : Manager} (new : DataConfig) (env : ReconfigureEnv)
      → GivesHandles env.connect_env
      → Step m (reconfigure_data_config m new env).0
  stop_begins : {m : Manager} → Step m (record m { state = stopping; desired_connection = false })

-- A new manager is disconnected and has no handle.
pub data Reachable : Manager → Type 0 where
  initial : {m : Manager} → m.state ≡ disconnected → has_handle m ≡ false → Reachable m
  stepped : {m n : Manager} → Reachable m → Step m n → Reachable n

initial-IsValid : (m : Manager) → m.state ≡ disconnected → has_handle m ≡ false → IsValid m
unfolding is_connecting is_connected
initial-IsValid m e bare = record {
  settled = cc e;
  carried = ground (arith, bare);
  cleaned = ground (arith, bare);
}

begun-IsValid : (m : Manager) → IsValid (record m { state = stopping; desired_connection = false })
unfolding is_connecting is_connected is_disconnected
begun-IsValid m = record { settled = refl; carried = refl; cleaned = ground arith }

step-IsValid : {m n : Manager} → Step m n → IsValid m → IsValid n
step-IsValid (connects {m = m} env g) v = connect-IsValid m env g v
step-IsValid (disconnects {m = m} a b) v = disconnect-IsValid m a b v
step-IsValid (starts {m = m} env g) v = do_connect-IsValid m env g v
step-IsValid (stops {m = m} a b) v = do_disconnect-IsValid m a b
step-IsValid (asks_connect {m = m}) v = ask_connect-IsValid m v
step-IsValid (asks_disconnect {m = m}) v = ask_disconnect-IsValid m v
step-IsValid (checked {m = m} seen desired env e) v =
    finish_status_check-IsValid seen desired m env e v
step-IsValid (gets_bearer {m = m} request env g) v =
    connect_default_data_bearer-IsValid m request env g v
step-IsValid (reconfigures {m = m} new env g) v = reconfigure_data_config-IsValid m new env g v
step-IsValid (stop_begins {m = m}) v = begun-IsValid m

-- From a disconnected manager without a handle, with a modem that gives a handle other than 0
-- exactly with a success, after any sequence of the calls that hold dataOpMu (connects,
-- disconnects, bearer requests, changes of the configuration), with what is done without it
-- coming between them (the begins of a Connect, a Disconnect or a Stop, and the ends of status
-- checks that did not begin during a connect), no connect is under way, a connected manager has a
-- handle, and a bearer with its own authentication has no handle while disconnected. What is done
-- without dataOpMu in the midst of such a call is not covered.
pub Reachable-IsValid : {m : Manager} → Reachable m → IsValid m
Reachable-IsValid (initial {m = m} e bare) = initial-IsValid m e bare
Reachable-IsValid (stepped r s) = step-IsValid s (Reachable-IsValid r)
