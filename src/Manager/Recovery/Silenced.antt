-- ===== src/Manager/Recovery/Silenced.antt =====
-- The flag of a deferred reset, and the cleanup that stops its timer.
use qmi_go.Base.{ℕ, ◌+◌, ◌≡◌, refl, ◌∙◌, List, [], ◌∷◌, arith, Bool, true, false, not}
use qmi_go.Base.{if_both, if_split}
use qmi_go.Manager.Recovery.{
  Recovery, send_or_defer, enqueue_modem_reset_event, end_recovery, do_recover, RecoverEnv,
  schedule_recover_retry, is_recovery_exhausted, failed_once, cleaned_up, is_debounced,
}

-- A recovery is running; a reset was deferred before it, and nothing else is to come.
pub record Deferring (m : Recovery) : Type 0 where
  pub running : m.recovering ≡ true
  pub shut : m.deferred ≡ true
  pub calm : m.pending ≡ false
  pub empty : m.queued ≡ 0

-- No recovery runs or is queued, and the flag stands without a timer that could take it down.
pub record IsSilenced (m : Recovery) : Type 0 where
  pub idle : m.recovering ≡ false
  pub shut : m.deferred ≡ true
  pub empty : m.queued ≡ 0
  pub unarmed : m.deferred_timers + m.blocked_timers ≡ 0

-- What a recovery leaves of the reset that was deferred.
record Unarmed (m n : Recovery) : Type 0 where
  pub shut : n.deferred ≡ m.deferred
  pub calm : n.pending ≡ m.pending
  pub empty : n.queued ≡ m.queued
  pub unarmed : n.deferred_timers + n.blocked_timers ≡ 0

schedule-Unarmed :
    (m : Recovery) (now : ℕ) (int63n : ℕ → ℕ)
    → Unarmed m (schedule_recover_retry (cleaned_up m) now int63n)
unfolding schedule_recover_retry
schedule-Unarmed m now int63n =
    if_both (Unarmed m) (is_recovery_exhausted (failed_once (cleaned_up m) now) now)
      (record { shut = refl; calm = refl; empty = refl; unarmed = refl })
      (record { shut = refl; calm = refl; empty = refl; unarmed = refl })

do_recover-Unarmed :
    (m : Recovery) (env : RecoverEnv) → env.is_stopping ≡ false → Unarmed m (do_recover m env)
unfolding do_recover
do_recover-Unarmed m env on =
    let P = Unarmed m in
    let later = schedule-Unarmed m env.now env.int63n in
    if_split P env.is_stopping (λ off. absurd (ground (arith, on, off)))
      (λ _.
        if_both P (not env.reopened)
          (if_both P env.device_gone
            (record { shut = refl; calm = refl; empty = refl; unarmed = refl }) later)
          (if_both P (not env.quiet)
            (if_both P m.pending (record { shut = refl; calm = refl; empty = refl; unarmed = refl })
              later)
            (record { shut = refl; calm = refl; empty = refl; unarmed = refl })))

ended-IsSilenced :
    (m n : Recovery) (now : ℕ) (has_room : Bool)
    → Deferring m
    → Unarmed m n
    → IsSilenced (end_recovery n now has_room)
unfolding end_recovery
ended-IsSilenced m n now has_room d u =
    if_split IsSilenced n.pending (λ p. absurd (ground (arith, p, u.calm, d.calm)))
      (λ _. record {
        idle = refl;
        shut = u.shut ∙ d.shut;
        empty = u.empty ∙ d.empty;
        unarmed = u.unarmed;
      })

pub enqueue-IsSilenced :
    (m : Recovery) (now : ℕ) → IsSilenced m → IsSilenced (enqueue_modem_reset_event m now false)
unfolding enqueue_modem_reset_event send_or_defer
enqueue-IsSilenced m now s =
    if_both IsSilenced m.recovering
      (record { idle = s.idle; shut = s.shut; empty = s.empty; unarmed = s.unarmed })
      (if_both IsSilenced (is_debounced m.enqueued_at m.dedup_window now)
        (record { idle = s.idle; shut = s.shut; empty = s.empty; unarmed = s.unarmed })
        (if_split IsSilenced m.deferred
          (λ _. record { idle = s.idle; shut = s.shut; empty = s.empty; unarmed = s.unarmed })
          (λ off. absurd (ground (arith, off, s.shut)))))

-- Resets one after another, each with the queue full.
unfoldable pub reset_all : Recovery → List ℕ → Recovery
reset_all m [] = m
reset_all m (now ∷ times) = reset_all (enqueue_modem_reset_event m now false) times

reset_all-IsSilenced :
    (m : Recovery) (times : List ℕ) → IsSilenced m → IsSilenced (reset_all m times)
unfolding reset_all
reset_all-IsSilenced m [] s = s
reset_all-IsSilenced m (now ∷ times) s =
    reset_all-IsSilenced (enqueue_modem_reset_event m now false) times (enqueue-IsSilenced m now s)

-- A reset that was deferred for a full queue leaves its flag up without a timer, once a recovery with
-- nothing pending has run, whatever comes of it: then any number of resets that find the queue full
-- again, whenever they come, lead to no recovery, neither by the queue nor by a timer for it.
pub do_recover-IsSilenced :
    (m : Recovery) (env : RecoverEnv) (ended_at : ℕ) (has_room : Bool) (times : List ℕ)
    → Deferring m
    → env.is_stopping ≡ false
    → IsSilenced (reset_all (end_recovery (do_recover m env) ended_at has_room) times)
do_recover-IsSilenced m env ended_at has_room times d on =
    reset_all-IsSilenced (end_recovery (do_recover m env) ended_at has_room) times
      (ended-IsSilenced m (do_recover m env) ended_at has_room d (do_recover-Unarmed m env on))
