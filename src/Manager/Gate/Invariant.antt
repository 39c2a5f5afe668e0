-- ===== src/Manager/Gate/Invariant.antt =====
-- The quiet window excludes card operations, and no ticket is lost.
use qmi_go.Base.{ℕ, ◌+◌, ◌-◌, ◌≤◌, ◌≡◌, refl, ◌∙◌, arith, true, false, ◌||◌}
use qmi_go.Base.{List, [], ◌∷◌, Bool, not, leb, ltb, ◌&&◌, ◌==◌, Bool-cases, inl, inr}
use qmi_go.Manager.Gate.{
  CardAccessGate, init, signal, contains, delete, skip_canceled, try_acquire, release, enter, grant,
  try_begin, begin_ready, cancel, end_barrier,
}
use qmi_go.Manager.Gate.Skip.{Skips, skip_canceled-Skips, contains-delete}
use qmi_go.Manager.Gate.System.{
  System, idle_system, Op, acquires, releases, enters, ends, wakes, cancels, after_test,
  after_acquire, step, run,
}

abbrev pub between : ℕ → ℕ → ℕ → Bool
between lo hi t = leb lo t && ltb t hi

-- Each ticket from the served one on belongs to a call that waits or is cancelled, never both; and
-- no other ticket does.
abbrev pub Ticketed : CardAccessGate → List ℕ → ℕ → Type 0
Ticketed g waiting t =
    ((contains t waiting || contains t g.canceled) ≡ between g.serving_ticket g.next_ticket t)
    × ((contains t waiting && contains t g.canceled) ≡ false)

pub record IsValid (s : System) : Type 0 where
  pub ordered : s.gate.serving_ticket ≤ s.gate.next_ticket
  pub tickets : (t : ℕ) → Ticketed s.gate s.waiting t
  pub barrier_held : s.gate.barrier ≡ s.held
  pub active_users : s.gate.active ≡ s.users
  pub exclusive : s.held ≡ true → s.users ≡ 0

contains-cons : (t x : ℕ) (xs : List ℕ) → contains t (x ∷ xs) ≡ (x == t || contains t xs)
unfolding contains
contains-cons t x xs = refl

-- Only the gate changes, and only by passing over cancelled tickets.
pub init-IsValid : (s : System) → IsValid s → IsValid (record s { gate = init s.gate })
unfolding init
init-IsValid s v = elim (Bool-cases (s.gate.next_ticket == 0)) [
  | inl e ↦ record {
    ordered = ground (arith, v.ordered);
    tickets = λ t. ground (arith, v.tickets t, v.ordered);
    barrier_held = ground (arith, v.barrier_held);
    active_users = ground (arith, v.active_users);
    exclusive = v.exclusive;
  }
  | inr e ↦ record {
    ordered = ground (arith, v.ordered);
    tickets = λ t. ground (arith, v.tickets t);
    barrier_held = ground (arith, v.barrier_held);
    active_users = ground (arith, v.active_users);
    exclusive = v.exclusive;
  }
]

Skips-ordered :
    (g h : CardAccessGate) (waiting : List ℕ)
    → Skips g h
    → g.serving_ticket ≤ g.next_ticket
    → ((t : ℕ) → Ticketed g waiting t)
    → h.serving_ticket ≤ h.next_ticket
Skips-ordered g h waiting k o ts =
    ground (arith, k.up, k.same_next, k.over (h.serving_ticket - 1), ts (h.serving_ticket - 1))

Skips-Ticketed :
    (g h : CardAccessGate) (waiting : List ℕ) (t : ℕ)
    → Skips g h
    → h.serving_ticket ≤ h.next_ticket
    → Ticketed g waiting t
    → Ticketed h waiting t
Skips-Ticketed g h waiting t k o ticketed = ground (arith, k.kept t, k.over t, k.up, k.same_next)

pub skip-IsValid : (s : System) → IsValid s → IsValid (record s { gate = skip_canceled s.gate })
skip-IsValid s v =
    let w = init-IsValid s v in
    let k = skip_canceled-Skips s.gate in
    let o = Skips-ordered _ _ s.waiting k w.ordered w.tickets in
    record {
      ordered = o;
      tickets = λ t. Skips-Ticketed _ _ s.waiting t k o (w.tickets t);
      barrier_held = k.same_barrier ∙ w.barrier_held;
      active_users = k.same_active ∙ w.active_users;
      exclusive = v.exclusive;
    }

granted-IsValid :
    (s : System) (g : CardAccessGate) (ticket : ℕ)
    → IsValid (record s { gate = g })
    → contains ticket s.waiting ≡ true
    → begin_ready g ticket ≡ true
    → IsValid (record s {
      gate = record g { serving_ticket = g.serving_ticket + 1; barrier = true };
      waiting = delete ticket s.waiting;
      held = true;
    })
unfolding begin_ready
granted-IsValid s g ticket v w ready = record {
  ordered = ground (arith, v.tickets ticket);
  tickets = λ t. ground (arith, v.tickets t, contains-delete t ticket s.waiting);
  barrier_held = refl;
  active_users = v.active_users;
  exclusive = λ _. ground (arith, v.active_users);
}

-- The test for a ticket, in a gate that the skip has just left.
grant-IsValid :
    (s : System) (g : CardAccessGate) (ticket : ℕ)
    → IsValid (record s { gate = g })
    → contains ticket s.waiting ≡ true
    → IsValid (after_test s (grant g ticket) ticket)
unfolding after_test grant
grant-IsValid s g ticket v w = elim (Bool-cases (begin_ready g ticket)) [
  | inl ready ↦ rw (ready, grant) (granted-IsValid s g ticket v w ready)
  | inr waits ↦ rw (waits, grant) v
]

acquired-IsValid :
    (s : System) (g : CardAccessGate)
    → IsValid (record s { gate = g })
    → g.barrier ≡ false
    → IsValid (record s { gate = record g { active = g.active + 1 }; users = s.users + 1 })
acquired-IsValid s g v b = record {
  ordered = v.ordered;
  tickets = v.tickets;
  barrier_held = v.barrier_held;
  active_users = omega (arith, v.active_users);
  exclusive = λ h. cc (v.barrier_held);
}

acquire-IsValid : (s : System) → IsValid s → IsValid (step s acquires)
unfolding step try_acquire after_acquire
acquire-IsValid s v =
    let g = skip_canceled (init s.gate) in
    let w = skip-IsValid (record s { gate = init s.gate }) (init-IsValid s v) in
    elim (Bool-cases (not g.barrier && g.next_ticket == g.serving_ticket)) [
      | inl free ↦ rw free (acquired-IsValid s g w (ground arith))
      | inr busy ↦ rw busy w
    ]

enters-IsValid : (s : System) → IsValid s → IsValid (step s enters)
unfolding step enter
enters-IsValid s v =
    let i = init s.gate in
    let w = init-IsValid s v in
    let entered : IsValid (record s {
      gate = record i { next_ticket = i.next_ticket + 1 };
      waiting = i.next_ticket ∷ s.waiting;
    }) =
      record {
        ordered = omega (arith, w.ordered);
        tickets =
            λ t. ground (arith, w.tickets t, w.ordered, contains-cons t i.next_ticket s.waiting);
        barrier_held = w.barrier_held;
        active_users = w.active_users;
        exclusive = w.exclusive;
      } in
    grant-IsValid (record s { waiting = i.next_ticket ∷ s.waiting }) _ i.next_ticket
      (skip-IsValid _ entered)
      (rw (contains-cons i.next_ticket i.next_ticket s.waiting) (ground arith))

wakes-IsValid : (s : System) (ticket : ℕ) → IsValid s → IsValid (step s (wakes ticket))
unfolding step try_begin
wakes-IsValid s ticket v = elim (Bool-cases (contains ticket s.waiting)) [
  | inl w ↦ rw w (grant-IsValid s (skip_canceled s.gate) ticket (skip-IsValid s v) w)
  | inr w ↦ rw w v
]

cancels-IsValid : (s : System) (ticket : ℕ) → IsValid s → IsValid (step s (cancels ticket))
unfolding step cancel signal
cancels-IsValid s ticket v = elim (Bool-cases (contains ticket s.waiting)) [
  | inr w ↦ rw w v
  | inl w ↦
      let left : IsValid (record s {
        gate = record (s.gate) { canceled = ticket ∷ s.gate.canceled };
        waiting = delete ticket s.waiting;
      }) =
        record {
          ordered = v.ordered;
          tickets = λ t. ground (
            arith,
            v.tickets t,
            contains-cons t ticket s.gate.canceled,
            contains-delete t ticket s.waiting,
          );
          barrier_held = v.barrier_held;
          active_users = v.active_users;
          exclusive = v.exclusive;
        } in
      let k = skip-IsValid _ left in
      rw w (record {
        ordered = k.ordered;
        tickets = k.tickets;
        barrier_held = k.barrier_held;
        active_users = k.active_users;
        exclusive = k.exclusive;
      })
]

release-IsValid : (s : System) → IsValid s → IsValid (step s releases)
unfolding step release signal
release-IsValid s v = record {
  ordered = ground (arith, v.ordered);
  tickets = λ t. ground (arith, v.tickets t);
  barrier_held = ground (arith, v.barrier_held);
  active_users = ground (arith, v.active_users);
  exclusive = ground (arith, v.exclusive);
}

ends-IsValid : (s : System) → IsValid s → IsValid (step s ends)
unfolding step end_barrier signal
ends-IsValid s v = record {
  ordered = ground (arith, v.ordered);
  tickets = λ t. ground (arith, v.tickets t);
  barrier_held = ground (arith, v.barrier_held);
  active_users = ground (arith, v.active_users);
  exclusive = ground (arith, v.exclusive);
}

step-IsValid : (s : System) (op : Op) → IsValid s → IsValid (step s op)
step-IsValid s acquires v = acquire-IsValid s v
step-IsValid s releases v = release-IsValid s v
step-IsValid s enters v = enters-IsValid s v
step-IsValid s ends v = ends-IsValid s v
step-IsValid s (wakes ticket) v = wakes-IsValid s ticket v
step-IsValid s (cancels ticket) v = cancels-IsValid s ticket v

run-IsValid : (s : System) (ops : List Op) → IsValid s → IsValid (run s ops)
unfolding run
run-IsValid s [] v = v
run-IsValid s (op ∷ rest) v = run-IsValid (step s op) rest (step-IsValid s op v)

idle-IsValid : IsValid idle_system
unfolding contains
idle-IsValid = record {
  ordered = omega arith;
  tickets = λ t. ground arith;
  barrier_held = refl;
  active_users = refl;
  exclusive = λ h. refl;
}

-- After any history of calls: the gate's barrier and count are those of the calls that hold it, an
-- open quiet window excludes every card operation, and each ticket from the served one up to the
-- next to be given out belongs to exactly one call, which waits or was cancelled.
pub run_idle-IsValid : (ops : List Op) → IsValid (run idle_system ops)
run_idle-IsValid ops = run-IsValid idle_system ops idle-IsValid
