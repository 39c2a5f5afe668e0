-- ===== src/Manager/Gate/System.antt =====
-- The gate with those who call it. A card operation acquires and releases; a quiet window enters,
-- waits with its ticket for its turn or for the end of its context, and ends.
use qmi_go.Base.{ℕ, ◌+◌, ◌-◌, List, [], ◌∷◌, Bool, true, false, ltb, if◌then◌else◌}
use qmi_go.Manager.Gate.{
  CardAccessGate, zero_gate, contains, delete, try_acquire, release, enter, grant, try_begin,
  cancel, end_barrier,
}

pub record System : Type 0 where
  pub gate : CardAccessGate
  -- The tickets of the `begin` calls that wait.
  pub waiting : List ℕ
  -- How many card operations run, and whether a quiet window is open.
  pub users : ℕ
  pub held : Bool

abbrev pub idle_system : System
idle_system = record { gate = zero_gate; waiting = []; users = 0; held = false }

pub data Op : Type 0 where
  acquires releases enters ends : Op
  wakes cancels : ℕ → Op

-- `g` after a test for `ticket`: the window opens, or the call waits.
unfoldable pub after_test : System → CardAccessGate × Bool → ℕ → System
after_test s (g, true) ticket = record s {
  gate = g;
  waiting = delete ticket s.waiting;
  held = true;
}
after_test s (g, false) ticket = record s { gate = g }

unfoldable pub after_acquire : System → CardAccessGate × Bool → System
after_acquire s (g, true) = record s { gate = g; users = s.users + 1 }
after_acquire s (g, false) = record s { gate = g }

-- An operation that nobody can make leaves the system alone.
unfoldable pub step : System → Op → System
step s acquires = after_acquire s (try_acquire s.gate)
step s releases =
    if ltb 0 s.users then record s { gate = release s.gate; users = s.users - 1 } else s
step s enters =
    let (g, ticket) = enter s.gate in
    after_test (record s { waiting = ticket ∷ s.waiting }) (grant g ticket) ticket
step s (wakes ticket) =
    if contains ticket s.waiting then after_test s (try_begin s.gate ticket) ticket else s
step s (cancels ticket) =
    if contains ticket s.waiting
    then record s { gate = cancel s.gate ticket; waiting = delete ticket s.waiting }
    else s
step s ends = if s.held then record s { gate = end_barrier s.gate; held = false } else s

unfoldable pub run : System → List Op → System
unfolding step
run s [] = s
run s (op ∷ rest) = run (step s op) rest
