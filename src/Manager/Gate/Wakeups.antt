-- ===== src/Manager/Gate/Wakeups.antt =====
-- Who may go on: the gate never blocks for good, and tickets are served in their order.
use qmi_go.Base.{ℕ, ◌≤◌, ◌≡◌, refl, arith, true, false}
use qmi_go.Base.{not, ◌&&◌, ◌==◌, Bool-cases, inl, inr, ◌⊎◌}
use qmi_go.Manager.Gate.{init, contains, skip_canceled, try_acquire, grant, try_begin, begin_ready}
use qmi_go.Manager.Gate.Skip.{skip_canceled-Skips}
use qmi_go.Manager.Gate.System.{System, acquires, wakes, after_test, after_acquire, step}
use qmi_go.Manager.Gate.Invariant.{IsValid, init-IsValid, skip-IsValid}

-- The ticket whose turn it is.
abbrev pub turn : System → ℕ
turn s = (skip_canceled s.gate).serving_ticket

wakes_granted :
    (s : System)
    → IsValid s
    → s.held ≡ false
    → s.users ≡ 0
    → contains (turn s) s.waiting ≡ true
    → (step s (wakes (turn s))).held ≡ true
unfolding step try_begin grant after_test begin_ready
wakes_granted s v free none_in w =
    let k = skip-IsValid s v in ground (arith, k.barrier_held, k.active_users)

-- In a valid system with no quiet window open and no card operation running, somebody can go on
-- at once: if calls
-- wait, then the one whose turn it is waits, and a wake-up gives it the window; and only if none
-- waits does the turn stand at a ticket that has not been given out.
pub turn_progress :
    (s : System)
    → IsValid s
    → s.held ≡ false
    → s.users ≡ 0
    → ((contains (turn s) s.waiting ≡ true) × ((step s (wakes (turn s))).held ≡ true))
      ⊎ ((turn s ≡ (skip_canceled s.gate).next_ticket) × ((t : ℕ) → contains t s.waiting ≡ false))
turn_progress s v free none_in =
    let k = skip-IsValid s v in
    let i = skip_canceled-Skips s.gate in
    elim (Bool-cases (contains (turn s) s.waiting)) [
      | inl w ↦ inl (w, wakes_granted s v free none_in w)
      | inr w ↦ inr (
        ground (arith, k.tickets (turn s), i.live, k.ordered),
        λ t. ground (arith, k.tickets t, k.tickets (turn s), i.live, k.ordered),
      )
    ]

-- In a valid system without an open window, a wake-up that opens one is that of the oldest call that
-- waits.
pub wakes_oldest :
    (s : System) (ticket other : ℕ)
    → IsValid s
    → s.held ≡ false
    → (step s (wakes ticket)).held ≡ true
    → contains other s.waiting ≡ true
    → ticket ≤ other
unfolding step try_begin grant after_test begin_ready
wakes_oldest s ticket other v free opened w =
    let k = skip-IsValid s v in ground (arith, k.tickets other)

-- In a valid system, no card operation starts while a quiet window is open or a call for one waits.
pub acquires_blocked :
    (s : System) (ticket : ℕ)
    → IsValid s
    → (s.held ≡ true) ⊎ (contains ticket s.waiting ≡ true)
    → (step s acquires).users ≡ s.users
unfolding step try_acquire after_acquire
acquires_blocked s ticket v busy =
    let g = skip_canceled (init s.gate) in
    let k = skip-IsValid (record s { gate = init s.gate }) (init-IsValid s v) in
    elim (Bool-cases (not g.barrier && g.next_ticket == g.serving_ticket)) [
      | inl free ↦ absurd (ground (arith, k.barrier_held, k.tickets ticket))
      | inr b ↦ rw b refl
    ]
