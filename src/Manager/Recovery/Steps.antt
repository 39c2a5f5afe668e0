-- ===== src/Manager/Recovery/Steps.antt =====
-- The steps of resets and recoveries, and what they keep.
use qmi_go.Base.{ℕ, ◌-◌, ◌<◌, ◌≡◌, refl, arith, Bool, true, false, ◌&&◌, ◌||◌, not}
use qmi_go.Base.{if_both}
use qmi_go.Manager.Recovery.{
  Recovery, enqueue_modem_reset_event, deferred_fires, blocked_fires, retry_fires, begin_recovery,
  end_recovery, do_recover, RecoverEnv,
}
use qmi_go.Manager.Recovery.Owed.{
  IsValid, is_owed, is_noted, is_taken, settled, enqueue-Leaves, deferred_fires-Leaves,
  blocked_fires-Leaves, end_recovery-Leaves, do_recover-Leaves,
}

-- The steps of a manager that is not stopped; `owes` says after which of them a recovery is to come.
pub data Step : Recovery → Recovery → Type 0 where
  resets :
      (m : Recovery) (now : ℕ) (has_room : Bool) → Step m (enqueue_modem_reset_event m now has_room)
  retries : (m : Recovery) (now : ℕ) (has_room : Bool) → Step m (retry_fires m now has_room)
  wakes :
      (m : Recovery) (now : ℕ) (has_room : Bool)
      → 0 < m.deferred_timers
      → Step m (deferred_fires m now has_room)
  wakes_again :
      (m : Recovery) (now : ℕ) (has_room : Bool)
      → 0 < m.blocked_timers
      → Step m (blocked_fires m now has_room)
  begins : (m : Recovery) → Step m (begin_recovery m)
  recovers : (m : Recovery) (env : RecoverEnv) → Step m (do_recover m env)
  ends : (m : Recovery) (now : ℕ) (has_room : Bool) → Step m (end_recovery m now has_room)

abbrev pub owes : {m n : Recovery} → Step m n → Bool
owes (resets m now has_room) = is_taken m now has_room || is_owed m
owes (retries m now has_room) = is_taken m now has_room || is_owed m
owes (wakes m now has_room armed) = true
owes (wakes_again m now has_room armed) = true
owes (begins m) = false
owes (recovers m env) = is_noted m
owes (ends m now has_room) = is_owed m && (not m.pending || is_taken (settled m) now has_room)

begin_recovery-IsValid : (m : Recovery) → IsValid m → IsValid (begin_recovery m)
unfolding begin_recovery
begin_recovery-IsValid m v =
    if_both IsValid m.recovering (record { one_timer = v.one_timer })
      (record { one_timer = v.one_timer })

-- A reset or retry leaves a recovery to come if it finds a recovery running, or comes after the window
-- of the one before and finds room in the queue, a timer armed, or the flag `deferred` down; and so does
-- a timer of the full queue. What is to come stays so with every other reset; what is queued or pending
-- also stays with the recovery that runs, and at its end unless the pending reset is not taken then.
-- There is never more than one timer for the queue.
pub step-owes :
    {m n : Recovery} (s : Step m n) → IsValid m → IsValid n × (owes s ≡ true → is_owed n ≡ true)
unfolding retry_fires
step-owes (resets m now has_room) v = let l = enqueue-Leaves m now has_room v in (l.valid, l.owed)
step-owes (retries m now has_room) v =
    let l =
      enqueue-Leaves (record m { retry_timers = m.retry_timers - 1 }) now has_room
        (record { one_timer = v.one_timer }) in
    (l.valid, l.owed)
step-owes (wakes m now has_room armed) v =
    let l = deferred_fires-Leaves m now has_room armed v in (l.valid, λ _. l.owed refl)
step-owes (wakes_again m now has_room armed) v =
    let l = blocked_fires-Leaves m now has_room armed v in (l.valid, λ _. l.owed refl)
step-owes (begins m) v = (begin_recovery-IsValid m v, λ o. absurd (ground (arith, o)))
step-owes (recovers m env) v = let l = do_recover-Leaves m env v in (l.valid, l.owed)
step-owes (ends m now has_room) v =
    let l = end_recovery-Leaves m now has_room v in (l.valid, l.owed)
