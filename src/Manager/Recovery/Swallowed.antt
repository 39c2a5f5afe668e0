-- ===== src/Manager/Recovery/Swallowed.antt =====
-- The retry of a recovery that failed early, and the window of the reset that began it.
use qmi_go.Base.{
  ℕ, ◌+◌, ◌-◌, ◌*◌, ◌≤◌, ◌<◌, ◌≡◌, refl, ap, sym, subst, arith, Bool, true, false, not, Option,
  some,
}
use qmi_go.Base.{if_split}
use qmi_go.Manager.Recovery.{
  Recovery, millisecond, cleaned_up, default_modem_reset_dedup_window, is_debounced,
  enqueue_modem_reset_event, retry_fires, end_recovery, do_recover, RecoverEnv,
  schedule_recover_retry, is_recovery_exhausted, retry_after, failed_once, get_recover_delay,
}
use qmi_go.Manager.Recovery.Backoff.{get_recover_delay-bounds}
use qmi_go.Manager.Recovery.Owed.{is_owed}

-- The first recovery runs, with the window and the policy that the manager has by default; nothing else
-- is queued, armed or pending.
pub record FirstRecovery (m : Recovery) (reset_at : ℕ) : Type 0 where
  pub running : m.recovering ≡ true
  pub quiet : m.pending ≡ false
  pub shut : m.deferred ≡ false
  pub empty : m.queued ≡ 0
  pub unarmed : m.retry_timers ≡ 0
  pub fresh : m.recover_count ≡ 0
  pub begun : m.enqueued_at ≡ some reset_at
  pub window : m.dedup_window ≡ default_modem_reset_dedup_window
  pub no_limit : m.max_recover_attempts ≡ 0
  pub no_deadline : m.max_recover_elapsed ≡ 0

-- The modem cannot be opened, and its control device is there.
pub record FailsToOpen (env : RecoverEnv) : Type 0 where
  pub running : env.is_stopping ≡ false
  pub shut : env.reopened ≡ false
  pub present : env.device_gone ≡ false

-- What is left: no recovery runs, is queued or pending, no timer is armed, and no end was reported.
abbrev pub IsStuck : Recovery → Recovery → Type 0
IsStuck m n =
    (n.recovering ≡ false)
    × (is_owed n ≡ false)
    × (n.retry_timers ≡ 0)
    × (n.terminals ≡ m.terminals)

failed_recovery :
    (m : Recovery) (env : RecoverEnv) (reset_at : ℕ)
    → FirstRecovery m reset_at
    → FailsToOpen env
    → do_recover m env
      ≡ retry_after (failed_once (cleaned_up m) env.now) (get_recover_delay 1 env.int63n)
unfolding do_recover schedule_recover_retry is_recovery_exhausted
failed_recovery m env reset_at f e =
    let failed = failed_once (cleaned_up m) env.now in
    let P = λ (n : Recovery). n ≡ retry_after failed (get_recover_delay 1 env.int63n) in
    if_split P env.is_stopping (λ on. absurd (ground (arith, on, e.running)))
      (λ _.
        if_split P (not env.reopened)
          (λ _.
            if_split P env.device_gone (λ gone. absurd (ground (arith, gone, e.present)))
              (λ _.
                if_split P (is_recovery_exhausted failed env.now)
                  (λ over. absurd (ground (arith, over, f.no_limit, f.no_deadline)))
                  (λ _.
                    ap (λ (c : ℕ). retry_after failed (get_recover_delay (c + 1) env.int63n))
                      f.fresh)))
          (λ up. absurd (ground (arith, up, e.shut))))

-- A retry within the window is counted and goes no further.
retry-dropped :
    (m : Recovery) (now : ℕ) (has_room : Bool)
    → m.recovering ≡ false
    → is_debounced m.enqueued_at m.dedup_window now ≡ true
    → retry_fires m now has_room ≡ record m {
      retry_timers = m.retry_timers - 1;
      reset_events = m.reset_events + 1;
      reset_coalesced = m.reset_coalesced + 1;
    }
unfolding retry_fires enqueue_modem_reset_event
retry-dropped m now has_room idle late = simp (idle, late)

ended-idle :
    (m : Recovery) (now : ℕ) (has_room : Bool)
    → m.pending ≡ false
    → end_recovery m now has_room ≡ record m { recovering = false; pending = false }
unfolding end_recovery
ended-idle m now has_room e = simp (e)

-- The jitter included, the first retry comes within 600 ms.
first_delay-bound :
    (int63n : ℕ → ℕ)
    → ((n : ℕ) → 0 < n → int63n n < n)
    → get_recover_delay 1 int63n ≤ 600 * millisecond
first_delay-bound int63n draws = let b = get_recover_delay-bounds 1 int63n draws in omega arith

is_late :
    (at : Option ℕ) (window now reset_at : ℕ)
    → at ≡ some reset_at
    → window ≡ default_modem_reset_dedup_window
    → now < reset_at + default_modem_reset_dedup_window
    → is_debounced at window now ≡ true
unfolding is_debounced
is_late at window now reset_at e w h =
    subst (λ (a : Option ℕ). is_debounced a window now ≡ true) (sym e) (ground (arith, w, h))

-- With the default window of one second, no limit of attempts or of time, and nothing queued, armed,
-- pending or deferred, a first recovery of a manager that is not stopping, which fails to open a modem
-- whose control device is present less than 400 ms after its reset was queued, is the last, if nothing
-- else comes before its retry: that falls into the window of the reset and is dropped, for any draw below
-- its bound, so that no recovery runs, none is queued, pending, deferred or armed, and the end was not
-- reported.
pub FirstRecovery-IsStuck :
    (m : Recovery) (env : RecoverEnv) (reset_at ended_at : ℕ) (has_room still_room : Bool)
    → FirstRecovery m reset_at
    → FailsToOpen env
    → ((n : ℕ) → 0 < n → env.int63n n < n)
    → env.now < reset_at + 400 * millisecond
    → IsStuck m (
        retry_fires
          (end_recovery (do_recover m env) ended_at has_room)
          (env.now + get_recover_delay 1 env.int63n)
          still_room)
FirstRecovery-IsStuck m env reset_at ended_at has_room still_room f e draws early =
    let fires = env.now + get_recover_delay 1 env.int63n in
    let failed =
      retry_after (failed_once (cleaned_up m) env.now) (get_recover_delay 1 env.int63n) in
    let over : Recovery = record failed { recovering = false; pending = false } in
    let late : is_debounced over.enqueued_at over.dedup_window fires ≡ true =
      is_late m.enqueued_at m.dedup_window fires reset_at f.begun f.window
        (let d = first_delay-bound env.int63n draws in omega arith) in
    let dropped : Recovery = record over {
      retry_timers = over.retry_timers - 1;
      reset_events = over.reset_events + 1;
      reset_coalesced = over.reset_coalesced + 1;
    } in
    let stuck : IsStuck m dropped = (refl, ground (arith, f.empty, f.shut), refl, refl) in
    subst
      (λ (x : Recovery).
        IsStuck m (retry_fires (end_recovery x ended_at has_room) fires still_room))
      (sym (failed_recovery m env reset_at f e))
      (subst (λ (x : Recovery). IsStuck m (retry_fires x fires still_room))
        (sym (ended-idle failed ended_at has_room f.quiet))
        (subst (λ (x : Recovery). IsStuck m x) (sym (retry-dropped over fires still_room refl late))
          stuck))
