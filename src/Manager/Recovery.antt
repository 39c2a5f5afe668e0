-- ===== src/Manager/Recovery.antt =====
-- pkg/manager/manager.go and uim_recovery.go: how a modem reset is queued, and the recovery of the core
-- with its retries. Times are in nanoseconds. A function gets the time, whether the event queue has
-- room, and what the modem does as arguments; each stretch of code under modemResetMu, with the send
-- that follows it, is one step.
pub mod Backoff
pub mod Exhaustion
pub mod Owed
pub mod Steps
pub mod Swallowed
pub mod Silenced
use qmi_go.Base.{
  ℕ, zero, suc, ◌+◌, ◌-◌, ◌*◌, ◌/◌, List, [], ◌∷◌, ◌++◌, Bool, true, false, ◌&&◌, ◌||◌, not,
}
use qmi_go.Base.{ltb, leb, ◌==◌, if◌then◌else◌, Option, none, some}

abbrev pub millisecond : ℕ
millisecond = 1000000

abbrev pub recover_backoff_base : ℕ
recover_backoff_base = 500 * millisecond

abbrev pub recover_backoff_max : ℕ
recover_backoff_max = 15000 * millisecond

abbrev pub default_modem_reset_dedup_window : ℕ
default_modem_reset_dedup_window = 1000 * millisecond

-- The reasons of EventRecoveryExhausted.
pub data Terminal : Type 0 where
  recovery_exhausted device_removed : Terminal

-- The fields of the manager for resets and for recovery, the number of modem resets in the event queue,
-- and the armed timers: retries of the recovery, and the two of a queue that was full.
pub record Recovery : Type 0 where
  pub recovering : Bool
  pub pending : Bool
  pub deferred : Bool
  pub enqueued_at : Option ℕ
  pub dedup_window : ℕ
  pub queued : ℕ
  pub retry_timers : ℕ
  pub deferred_timers : ℕ
  pub blocked_timers : ℕ
  pub reset_events : ℕ
  pub reset_coalesced : ℕ
  pub recover_count : ℕ
  pub recover_first_fail_at : Option ℕ
  pub recover_backoff : ℕ
  pub recover_attempts : ℕ
  pub recover_success : ℕ
  pub max_recover_attempts : ℕ
  pub max_recover_elapsed : ℕ
  pub delays : List ℕ
  pub terminals : List Terminal
  pub reconnects : ℕ

abbrev pub coalesced : Recovery → Recovery
coalesced m = record m { reset_coalesced = m.reset_coalesced + 1 }

abbrev pub coalesced_pending : Recovery → Recovery
coalesced_pending m = record m { pending = true; reset_coalesced = m.reset_coalesced + 1 }

-- Whether the last reset was queued less than a window ago.
unfoldable pub is_debounced : Option ℕ → ℕ → ℕ → Bool
is_debounced none window now = false
is_debounced (some at) window now = ltb now (at + window)

-- The send of `enqueueModemResetEvent`, and what comes where the queue is full.
unfoldable pub send_or_defer : Recovery → Bool → Recovery
send_or_defer m has_room =
    if has_room
    then record m { queued = m.queued + 1 }
    else if m.deferred
    then coalesced_pending m
    else record m { deferred = true; deferred_timers = m.deferred_timers + 1 }

-- `enqueueModemResetEvent`
unfoldable pub enqueue_modem_reset_event : Recovery → ℕ → Bool → Recovery
enqueue_modem_reset_event m now has_room =
    let counted : Recovery = record m { reset_events = m.reset_events + 1 } in
    if m.recovering
    then coalesced_pending counted
    else if is_debounced m.enqueued_at m.dedup_window now
    then coalesced counted
    else send_or_defer (record counted { enqueued_at = some now }) has_room

-- The timer of 200 ms that a full queue arms, and the one of 500 ms where it is still full.
unfoldable pub deferred_fires : Recovery → ℕ → Bool → Recovery
deferred_fires m now has_room =
    let woken : Recovery = record m { deferred = false; deferred_timers = m.deferred_timers - 1 } in
    if m.recovering
    then coalesced_pending woken
    else if has_room
    then record woken { enqueued_at = some now; queued = m.queued + 1 }
    else record (coalesced_pending woken) {
      enqueued_at = some now;
      deferred = true;
      blocked_timers = m.blocked_timers + 1;
    }

unfoldable pub blocked_fires : Recovery → ℕ → Bool → Recovery
blocked_fires m now has_room =
    enqueue_modem_reset_event
      (record m { deferred = false; enqueued_at = none; blocked_timers = m.blocked_timers - 1 }) now
      has_room

-- The timer of a retry of the recovery.
unfoldable pub retry_fires : Recovery → ℕ → Bool → Recovery
retry_fires m now has_room =
    enqueue_modem_reset_event (record m { retry_timers = m.retry_timers - 1 }) now has_room

-- `recoveryExhausted`
unfoldable pub is_over : Option ℕ → ℕ → ℕ → Bool
is_over none limit now = false
is_over (some first) limit now = leb (first + limit) now

unfoldable pub is_recovery_exhausted : Recovery → ℕ → Bool
is_recovery_exhausted m now =
    (ltb 0 m.max_recover_attempts && ltb m.max_recover_attempts m.recover_count)
    || (ltb 0 m.max_recover_elapsed && is_over m.recover_first_fail_at m.max_recover_elapsed now)

-- The loop of `getRecoverDelay`, with the number of rounds that are left.
unfoldable pub double_delay : ℕ → ℕ → ℕ
double_delay zero delay = delay
double_delay (suc rounds) delay =
    let more = double_delay rounds (delay * 2) in
    if leb recover_backoff_max delay
    then recover_backoff_max
    else if ltb recover_backoff_max (delay * 2)
    then recover_backoff_max
    else more

-- The jitter, by the number that was drawn.
unfoldable pub jittered : ℕ → ℕ → ℕ
jittered delay drawn =
    let moved = delay + drawn - delay / 5 in
    if ltb moved (100 * millisecond) then 100 * millisecond else moved

-- `getRecoverDelay`; `int63n` is that of math/rand, which gives a number below its argument.
unfoldable pub get_recover_delay : ℕ → (ℕ → ℕ) → ℕ
get_recover_delay recover_count int63n =
    let delay = double_delay (recover_count - 1) recover_backoff_base in
    jittered delay (int63n (delay / 5 * 2 + 1))

unfoldable pub first_failure : Option ℕ → ℕ → Option ℕ
first_failure none now = some now
first_failure (some at) now = some at

-- `scheduleRecoverRetry`
abbrev pub failed_once : Recovery → ℕ → Recovery
failed_once m now = record m {
  recover_count = m.recover_count + 1;
  recover_first_fail_at = first_failure m.recover_first_fail_at now;
}

abbrev pub given_up : Recovery → Terminal → Recovery
given_up m why = record m {
  recover_count = 0;
  recover_first_fail_at = none;
  terminals = m.terminals ++ (why ∷ []);
}

abbrev pub retry_after : Recovery → ℕ → Recovery
retry_after m delay = record m {
  recover_backoff = delay / millisecond;
  retry_timers = m.retry_timers + 1;
  delays = m.delays ++ (delay ∷ []);
}

unfoldable pub schedule_recover_retry : Recovery → ℕ → (ℕ → ℕ) → Recovery
schedule_recover_retry m now int63n =
    let failed = failed_once m now in
    if is_recovery_exhausted failed now
    then given_up failed recovery_exhausted
    else retry_after failed (get_recover_delay failed.recover_count int63n)

-- What a recovery meets: a manager that stops, the modem and its control device, a quiet window without
-- a reset, and what the caller wants; and the time at which it fails.
pub record RecoverEnv : Type 0 where
  pub is_stopping : Bool
  pub reopened : Bool
  pub device_gone : Bool
  pub quiet : Bool
  pub reconnects : Bool
  pub now : ℕ
  pub int63n : ℕ → ℕ

-- The attempt is counted, and `cleanup` stops every timer; the flag `modemResetDeferred` stays.
abbrev pub cleaned_up : Recovery → Recovery
cleaned_up m = record m {
  recover_attempts = m.recover_attempts + 1;
  retry_timers = 0;
  deferred_timers = 0;
  blocked_timers = 0;
}

-- `doRecoverFromModemReset`
unfoldable pub do_recover : Recovery → RecoverEnv → Recovery
do_recover m env =
    let tried = cleaned_up m in
    if env.is_stopping
    then m
    else if not env.reopened
    then if env.device_gone
      then given_up tried device_removed
      else schedule_recover_retry tried env.now env.int63n
    else if not env.quiet
    then if m.pending then tried else schedule_recover_retry tried env.now env.int63n
    else record tried {
      recover_count = 0;
      recover_first_fail_at = none;
      recover_backoff = 0;
      recover_success = m.recover_success + 1;
      reconnects = if env.reconnects then m.reconnects + 1 else m.reconnects;
    }

-- `handleModemResetEvent` up to the recovery, with the event taken from the queue, and from it on.
unfoldable pub begin_recovery : Recovery → Recovery
begin_recovery m =
    let taken : Recovery = record m { queued = m.queued - 1 } in
    if m.recovering
    then coalesced_pending taken
    else record taken { recovering = true; pending = false }

unfoldable pub end_recovery : Recovery → ℕ → Bool → Recovery
end_recovery m now has_room =
    let over : Recovery = record m { recovering = false; pending = false } in
    if m.pending then enqueue_modem_reset_event over now has_room else over
