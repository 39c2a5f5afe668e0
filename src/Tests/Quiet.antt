-- ===== src/Tests/Quiet.antt =====
-- The gate of pkg/manager/card_access_gate.go.
use qmi_go.Base.{ℕ, ◌≡◌, refl, true, false, List, [], ◌∷◌, ◌⊎◌}
use qmi_go.Manager.Gate.{CardAccessGate, init, contains, skip_canceled, skip_loop}
use qmi_go.Manager.Gate.Skip.{Skips, skip_canceled-Skips}
use qmi_go.Manager.Gate.System.{
  System, Op, acquires, releases, enters, ends, wakes, cancels, idle_system, step, run,
}
use qmi_go.Manager.Gate.Invariant.{IsValid, run_idle-IsValid}
use qmi_go.Manager.Gate.Wakeups.{turn, turn_progress}

abbrev gaps : CardAccessGate
gaps = record {
  active = 0;
  barrier = false;
  next_ticket = 6;
  serving_ticket = 2;
  canceled = 3 ∷ 2 ∷ 5 ∷ [];
  generation = 4;
}

gaps_skipped : (skip_canceled gaps).serving_ticket ≡ 4
unfolding skip_canceled skip_loop init contains qmi_go.Manager.Gate.delete
gaps_skipped = refl

skip_canceled-Skips_example : Skips (init gaps) (skip_canceled gaps)
skip_canceled-Skips_example = skip_canceled-Skips gaps

-- A card operation runs while three calls for a quiet window come; the first gives up, and the
-- operation ends.
abbrev ops : List Op
ops = acquires ∷ enters ∷ enters ∷ enters ∷ cancels 1 ∷ releases ∷ []

run_idle-IsValid_example : IsValid (run idle_system ops)
run_idle-IsValid_example = run_idle-IsValid ops

abbrev two_wait : System
two_wait = run idle_system ops

two_wait_free :
    (two_wait.held ≡ false)
    × (two_wait.users ≡ 0)
    × (contains 2 two_wait.waiting ≡ true)
    × (contains 3 two_wait.waiting ≡ true)
    × ((step two_wait (wakes 2)).held ≡ true)
unfolding run contains skip_canceled skip_loop init qmi_go.Manager.Gate.System.after_test
    qmi_go.Manager.Gate.grant qmi_go.Manager.Gate.enter qmi_go.Manager.Gate.System.after_acquire
    qmi_go.Manager.Gate.try_acquire qmi_go.Manager.Gate.try_begin qmi_go.Manager.Gate.delete
    qmi_go.Manager.Gate.release qmi_go.Manager.Gate.cancel qmi_go.Manager.Gate.signal
two_wait_free = (refl, refl, refl, refl, refl)

turn_progress_example :
    ((contains (turn two_wait) two_wait.waiting ≡ true)
      × ((step two_wait (wakes (turn two_wait))).held ≡ true))
    ⊎ ((turn two_wait ≡ (skip_canceled two_wait.gate).next_ticket)
        × ((t : ℕ) → contains t two_wait.waiting ≡ false))
turn_progress_example =
    turn_progress two_wait (run_idle-IsValid ops) two_wait_free.0 two_wait_free.1
