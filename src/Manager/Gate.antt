-- ===== src/Manager/Gate.antt =====
-- pkg/manager/card_access_gate.go. Each function is what one call does under the lock, from one
-- wait to the next. A close-and-replace of `notifyCh` is a new `generation`. Tickets are uint64 in
-- the source, and the model leaves their wrap-around out.
pub mod Skip
pub mod System
pub mod Invariant
pub mod Wakeups
use qmi_go.Base.{ℕ, zero, suc, ◌+◌, ◌-◌, List, [], ◌∷◌, Bool, true, false, ◌&&◌, ◌||◌, not}
use qmi_go.Base.{length, ltb, ◌==◌, if◌then◌else◌}

pub record CardAccessGate : Type 0 where
  pub active : ℕ
  pub barrier : Bool
  pub next_ticket : ℕ
  pub serving_ticket : ℕ
  pub canceled : List ℕ
  pub generation : ℕ

-- The zero value of the struct.
abbrev pub zero_gate : CardAccessGate
zero_gate = record {
  active = 0;
  barrier = false;
  next_ticket = 0;
  serving_ticket = 0;
  canceled = [];
  generation = 0;
}

-- `signalLocked`: everybody who waits is woken.
unfoldable pub signal : CardAccessGate → CardAccessGate
signal g = record g { generation = g.generation + 1 }

unfoldable pub init : CardAccessGate → CardAccessGate
init g = if g.next_ticket == 0 then record g { next_ticket = 1; serving_ticket = 1 } else g

-- The set `canceled`.
unfoldable pub contains : ℕ → List ℕ → Bool
contains t [] = false
contains t (x ∷ rest) = x == t || contains t rest

unfoldable pub delete : ℕ → List ℕ → List ℕ
delete t [] = []
delete t (x ∷ rest) = let more = delete t rest in if x == t then more else x ∷ more

-- The loop of `skipCanceledLocked`; each round deletes an entry.
unfoldable pub skip_loop : ℕ → CardAccessGate → CardAccessGate
skip_loop zero g = g
skip_loop (suc fuel) g =
    let later = skip_loop fuel (record g {
      canceled = delete g.serving_ticket g.canceled;
      serving_ticket = g.serving_ticket + 1;
    }) in
    if contains g.serving_ticket g.canceled then later else g

unfoldable pub skip_canceled : CardAccessGate → CardAccessGate
skip_canceled g = let g' = init g in skip_loop (length g'.canceled) g'

-- One round of `acquire`: granted, or the gate as the round leaves it, to wait for a signal.
unfoldable pub try_acquire : CardAccessGate → CardAccessGate × Bool
try_acquire g =
    let g' = skip_canceled (init g) in
    if not g'.barrier && g'.next_ticket == g'.serving_ticket
    then (record g' { active = g'.active + 1 }, true)
    else (g', false)

unfoldable pub release : CardAccessGate → CardAccessGate
release g =
    let g' : CardAccessGate = if ltb 0 g.active then record g { active = g.active - 1 } else g in
    if g'.active == 0 then signal g' else g'

-- `waitBarrierIdle` returns as soon as this is true.
unfoldable pub barrier_idle : CardAccessGate → Bool
barrier_idle g = not g.barrier

-- `begin` up to its loop: the gate and the ticket.
unfoldable pub enter : CardAccessGate → CardAccessGate × ℕ
enter g =
    let g' = init g in
    (skip_canceled (record g' { next_ticket = g'.next_ticket + 1 }), g'.next_ticket)

-- The test of the loop; the gate has just been through `skipCanceledLocked`.
unfoldable pub begin_ready : CardAccessGate → ℕ → Bool
begin_ready g ticket = not g.barrier && (g.active == 0 && ticket == g.serving_ticket)

unfoldable pub grant : CardAccessGate → ℕ → CardAccessGate × Bool
unfolding begin_ready
grant g ticket =
    if begin_ready g ticket
    then (record g { serving_ticket = g.serving_ticket + 1; barrier = true }, true)
    else (g, false)

-- One round of the loop after a wake-up.
unfoldable pub try_begin : CardAccessGate → ℕ → CardAccessGate × Bool
unfolding grant
try_begin g ticket = grant (skip_canceled g) ticket

-- The context ends while `begin` waits.
unfoldable pub cancel : CardAccessGate → ℕ → CardAccessGate
cancel g ticket = signal (skip_canceled (record g { canceled = ticket ∷ g.canceled }))

-- The closure that `begin` returns, the first time it is called.
unfoldable pub end_barrier : CardAccessGate → CardAccessGate
end_barrier g = signal (record g { barrier = false })
