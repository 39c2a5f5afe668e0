-- ===== src/Manager/Recovery/Exhaustion.antt =====
-- When a recovery gives up.
use qmi_go.Base.{ℕ, ◌+◌, ◌≤◌, ◌<◌, ◌≡◌, refl, ap, ◌∙◌, arith, List, [], ◌∷◌, ◌++◌}
use qmi_go.Base.{length, if_split}
use qmi_go.Manager.Recovery.{
  Recovery, Terminal, recovery_exhausted, is_recovery_exhausted, failed_once,
  schedule_recover_retry,
}

-- Failures one after another, at the given times.
unfoldable pub fail_times : Recovery → List ℕ → (ℕ → ℕ) → Recovery
fail_times m [] int63n = m
fail_times m (now ∷ times) int63n = fail_times (schedule_recover_retry m now int63n) times int63n

-- A retry is scheduled and nothing is given up; the policy and what has begun to count stay.
record Retried (m n : Recovery) (failures : ℕ) : Type 0 where
  pub counted : n.recover_count ≡ m.recover_count + failures
  pub armed : n.retry_timers ≡ m.retry_timers + failures
  pub kept : n.terminals ≡ m.terminals
  pub attempts : n.max_recover_attempts ≡ m.max_recover_attempts
  pub elapsed : n.max_recover_elapsed ≡ m.max_recover_elapsed

schedule_recover_retry-Retried :
    (m : Recovery) (now : ℕ) (int63n : ℕ → ℕ)
    → m.max_recover_elapsed ≡ 0
    → m.recover_count < m.max_recover_attempts
    → Retried m (schedule_recover_retry m now int63n) 1
unfolding schedule_recover_retry is_recovery_exhausted
schedule_recover_retry-Retried m now int63n off left =
    let failed = failed_once m now in
    if_split (λ (n : Recovery). Retried m n 1) (is_recovery_exhausted failed now)
      (λ over. absurd (ground (arith, over, off, left)))
      (λ _. record { counted = refl; armed = refl; kept = refl; attempts = refl; elapsed = refl })

fail_times-Retried :
    (m : Recovery) (times : List ℕ) (int63n : ℕ → ℕ)
    → m.max_recover_elapsed ≡ 0
    → m.recover_count + length times ≤ m.max_recover_attempts
    → Retried m (fail_times m times int63n) (length times)
unfolding fail_times
fail_times-Retried m [] int63n off left = record {
  counted = omega arith;
  armed = omega arith;
  kept = refl;
  attempts = refl;
  elapsed = refl;
}
fail_times-Retried m (now ∷ times) int63n off left =
    let once = schedule_recover_retry-Retried m now int63n off (ground (arith, left)) in
    let n = schedule_recover_retry m now int63n in
    let rest =
      fail_times-Retried n times int63n (once.elapsed ∙ off)
        (ground (arith, left, once.counted, once.attempts)) in
    record {
      counted = ground (arith, rest.counted, once.counted);
      armed = ground (arith, rest.armed, once.armed);
      kept = rest.kept ∙ once.kept;
      attempts = rest.attempts ∙ once.attempts;
      elapsed = rest.elapsed ∙ once.elapsed;
    }

-- A failure with no attempt left.
gives_up :
    (m : Recovery) (now : ℕ) (int63n : ℕ → ℕ)
    → 0 < m.max_recover_attempts
    → m.recover_count ≡ m.max_recover_attempts
    → ((schedule_recover_retry m now int63n).terminals ≡ m.terminals ++ (recovery_exhausted ∷ []))
      × ((schedule_recover_retry m now int63n).retry_timers ≡ m.retry_timers)
      × ((schedule_recover_retry m now int63n).recover_count ≡ 0)
unfolding schedule_recover_retry is_recovery_exhausted
gives_up m now int63n limited out =
    let failed = failed_once m now in
    if_split
      (λ (n : Recovery).
        (n.terminals ≡ m.terminals ++ (recovery_exhausted ∷ []))
        × (n.retry_timers ≡ m.retry_timers)
        × (n.recover_count ≡ 0))
      (is_recovery_exhausted failed now) (λ _. (refl, refl, refl))
      (λ on. absurd (ground (arith, on, limited, out)))

-- With a limit of attempts other than 0 and no limit of time: as many failures in a row as the limit,
-- after a success, arm a retry each and report nothing; the next one reports once that the recovery is
-- exhausted, arms nothing, and the count starts again.
pub fail_times-exhausted :
    (m : Recovery) (times : List ℕ) (last : ℕ) (int63n : ℕ → ℕ)
    → m.max_recover_elapsed ≡ 0
    → 0 < m.max_recover_attempts
    → m.recover_count ≡ 0
    → length times ≡ m.max_recover_attempts
    → let n = fail_times m times int63n in
      let d = schedule_recover_retry n last int63n in
      (n.retry_timers ≡ m.retry_timers + length times)
      × (n.terminals ≡ m.terminals)
      × (d.terminals ≡ m.terminals ++ (recovery_exhausted ∷ []))
      × (d.retry_timers ≡ n.retry_timers)
      × (d.recover_count ≡ 0)
fail_times-exhausted m times last int63n off limited fresh full =
    let n = fail_times m times int63n in
    let r = fail_times-Retried m times int63n off (ground (arith, fresh, full)) in
    let g =
      gives_up n last int63n (ground (arith, limited, r.attempts))
        (ground (arith, r.counted, r.attempts, fresh, full)) in
    (
      r.armed,
      r.kept,
      g.0 ∙ ap (λ (ts : List Terminal). ts ++ (recovery_exhausted ∷ [])) r.kept,
      g.1,
      g.2,
    )
