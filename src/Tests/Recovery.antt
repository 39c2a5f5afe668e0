-- ===== src/Tests/Recovery.antt =====
-- The recovery of the core: pkg/manager/manager.go and uim_recovery.go.
use qmi_go.Base.{
  ℕ, ◌+◌, ◌*◌, ◌^◌, ◌-◌, ◌/◌, ◌≤◌, ◌<◌, ◌≡◌, refl, min, arith, true, false, none, some, [], ◌∷◌,
  ◌++◌,
}
use qmi_go.Manager.Recovery.{
  Recovery, millisecond, default_modem_reset_dedup_window, recover_backoff_base,
  recover_backoff_max, get_recover_delay, recovery_exhausted, schedule_recover_retry, RecoverEnv,
  enqueue_modem_reset_event, retry_fires, end_recovery, do_recover,
}
use qmi_go.Manager.Recovery.Backoff.{get_recover_delay-bounds}
use qmi_go.Manager.Recovery.Exhaustion.{fail_times, fail_times-exhausted}
use qmi_go.Manager.Recovery.Owed.{IsValid, is_owed}
use qmi_go.Manager.Recovery.Steps.{owes, resets, step-owes}
use qmi_go.Manager.Recovery.Silenced.{IsSilenced, reset_all, do_recover-IsSilenced}
use qmi_go.Manager.Recovery.Swallowed.{IsStuck, FirstRecovery-IsStuck}

abbrev idle : Recovery
idle = record {
  recovering = false;
  pending = false;
  deferred = false;
  enqueued_at = none;
  dedup_window = default_modem_reset_dedup_window;
  queued = 0;
  retry_timers = 0;
  deferred_timers = 0;
  blocked_timers = 0;
  reset_events = 0;
  reset_coalesced = 0;
  recover_count = 0;
  recover_first_fail_at = none;
  recover_backoff = 0;
  recover_attempts = 0;
  recover_success = 0;
  max_recover_attempts = 0;
  max_recover_elapsed = 0;
  delays = [];
  terminals = [];
  reconnects = 0;
}

-- The number drawn is the middle.
abbrev middle : ℕ → ℕ
middle n = n / 2

middle-below : (n : ℕ) → 0 < n → middle n < n
middle-below n h = omega arith

get_recover_delay-bounds_example :
    let due = min (recover_backoff_base * 2 ^ (4 - 1)) recover_backoff_max in
    (due * 4 ≤ get_recover_delay 4 middle * 5) × (get_recover_delay 4 middle * 5 ≤ due * 6)
get_recover_delay-bounds_example = get_recover_delay-bounds 4 middle middle-below

abbrev limited : Recovery
limited = record idle { max_recover_attempts = 2 }

fail_times-exhausted_example :
    let n = fail_times limited (10 ∷ 20 ∷ []) middle in
    let d = schedule_recover_retry n 30 middle in
    (n.retry_timers ≡ 0 + 2)
    × (n.terminals ≡ [])
    × (d.terminals ≡ [] ++ (recovery_exhausted ∷ []))
    × (d.retry_timers ≡ n.retry_timers)
    × (d.recover_count ≡ 0)
fail_times-exhausted_example =
    fail_times-exhausted limited (10 ∷ 20 ∷ []) 30 middle refl (omega arith) refl refl

step-owes_example :
    IsValid (enqueue_modem_reset_event idle 7 false)
    × (owes (resets idle 7 false) ≡ true → is_owed (enqueue_modem_reset_event idle 7 false) ≡ true)
step-owes_example = step-owes (resets idle 7 false) (record { one_timer = omega arith })

abbrev recovering_first : Recovery
recovering_first = record idle { recovering = true; enqueued_at = some 0 }

abbrev failing : RecoverEnv
failing = record {
  is_stopping = false;
  reopened = false;
  device_gone = false;
  quiet = true;
  reconnects = true;
  now = 200 * millisecond;
  int63n = middle;
}

FirstRecovery-IsStuck_example : IsStuck recovering_first (
    retry_fires
      (end_recovery (do_recover recovering_first failing) (200 * millisecond) true)
      (200 * millisecond + get_recover_delay 1 middle)
      true)
FirstRecovery-IsStuck_example =
    FirstRecovery-IsStuck recovering_first failing 0 (200 * millisecond) true true
      (record {
        running = refl;
        quiet = refl;
        shut = refl;
        empty = refl;
        unarmed = refl;
        fresh = refl;
        begun = refl;
        window = refl;
        no_limit = refl;
        no_deadline = refl;
      })
      (record { running = refl; shut = refl; present = refl }) middle-below (omega arith)

abbrev deferring : Recovery
deferring = record recovering_first { deferred = true; deferred_timers = 1 }

do_recover-IsSilenced_example : IsSilenced (
    reset_all
      (end_recovery (do_recover deferring failing) (200 * millisecond) true)
      (3000 * millisecond ∷ 9000 * millisecond ∷ []))
do_recover-IsSilenced_example =
    do_recover-IsSilenced deferring failing (200 * millisecond) true
      (3000 * millisecond ∷ 9000 * millisecond ∷ [])
      (record { running = refl; shut = refl; calm = refl; empty = refl }) refl
