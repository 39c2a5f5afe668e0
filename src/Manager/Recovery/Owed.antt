-- ===== src/Manager/Recovery/Owed.antt =====
-- What becomes of a reset: it is queued, remembered or left to a timer, unless it falls into the window
-- of the one before.
use qmi_go.Base.{ℕ, ◌+◌, ◌-◌, ◌≤◌, ◌<◌, ◌≡◌, arith, Bool, true, false, ◌&&◌, ◌||◌, not, none, some}
use qmi_go.Base.{ltb, if◌then◌else◌, if_both, if_split, Bool-cases, inl, inr}
use qmi_go.Manager.Recovery.{
  Recovery, is_debounced, send_or_defer, enqueue_modem_reset_event, deferred_fires, blocked_fires,
  end_recovery, do_recover, RecoverEnv, schedule_recover_retry, is_recovery_exhausted, failed_once,
  cleaned_up,
}

-- A reset is in the queue, or one has come during the recovery that runs.
abbrev pub is_noted : Recovery → Bool
is_noted m = ltb 0 m.queued || (m.recovering && m.pending)

abbrev pub is_armed : Recovery → Bool
is_armed m = ltb 0 (m.deferred_timers + m.blocked_timers)

-- A recovery is to come: a reset is noted, or a timer will queue one.
abbrev pub is_owed : Recovery → Bool
is_owed m = is_noted m || is_armed m

-- There is at most one timer for the queue, and none without the flag `deferred`.
pub record IsValid (m : Recovery) : Type 0 where
  pub one_timer : m.deferred_timers + m.blocked_timers ≤ (if m.deferred then 1 else 0)

-- A reset finds the queue with room, or may arm a timer, or one is armed.
abbrev pub is_heard : Recovery → Bool → Bool
is_heard m has_room = has_room || (not m.deferred || is_armed m)

-- A reset finds a recovery running, or comes after the window of the one before and is heard.
abbrev pub is_taken : Recovery → ℕ → Bool → Bool
is_taken m now has_room =
    m.recovering || (not (is_debounced m.enqueued_at m.dedup_window now) && is_heard m has_room)

-- A valid state, in which a recovery is owed if it is due.
pub record Leaves (n : Recovery) (due : Bool) : Type 0 where
  pub valid : IsValid n
  pub owed : due ≡ true → is_owed n ≡ true

module _ (m : Recovery) (now : ℕ) where
  -- A reset that is let in: counted, and with the time of its queueing.
  abbrev let_in : Recovery
  let_in = record m { reset_events = m.reset_events + 1; enqueued_at = some now }

  send-Leaves :
      (has_room : Bool) → IsValid m → Leaves (send_or_defer let_in has_room) (is_heard m has_room)
  unfolding send_or_defer
  send-Leaves true v = record {
    valid = record { one_timer = v.one_timer };
    owed = λ _. ground arith;
  }
  send-Leaves false v =
      if_split (λ (n : Recovery). Leaves n (is_heard m false)) m.deferred
        (λ on. record {
          valid = record { one_timer = v.one_timer };
          owed = λ h. ground (arith, on, h);
        })
        (λ off. record {
          valid = record { one_timer = ground (arith, off, v.one_timer) };
          owed = λ _. ground arith;
        })

  send-owed : (has_room : Bool) → is_owed m ≡ true → is_owed (send_or_defer let_in has_room) ≡ true
  unfolding send_or_defer
  send-owed true o = ground arith
  send-owed false o =
      if_both (λ (n : Recovery). is_owed n ≡ true) m.deferred (ground (arith, o)) (ground arith)

  pub enqueue-Leaves :
      (has_room : Bool)
      → IsValid m
      → Leaves (enqueue_modem_reset_event m now has_room) (is_taken m now has_room || is_owed m)
  unfolding enqueue_modem_reset_event
  enqueue-Leaves has_room v =
      let P = λ (n : Recovery). Leaves n (is_taken m now has_room || is_owed m) in
      if_split P m.recovering
        (λ on. record {
          valid = record { one_timer = v.one_timer };
          owed = λ _. ground (arith, on);
        })
        (λ off.
          if_split P (is_debounced m.enqueued_at m.dedup_window now)
            (λ late. record {
              valid = record { one_timer = v.one_timer };
              owed = λ o. ground (arith, o, off, late);
            })
            (λ _.
              let l = send-Leaves has_room v in
              record {
                valid = l.valid;
                owed = λ o. elim (Bool-cases (is_owed m)) [
                  | inl owed ↦ send-owed has_room owed
                  | inr not_owed ↦ l.owed (ground (arith, o, off, not_owed))
                ];
              }))

pub deferred_fires-Leaves :
    (m : Recovery) (now : ℕ) (has_room : Bool)
    → 0 < m.deferred_timers
    → IsValid m
    → Leaves (deferred_fires m now has_room) true
unfolding deferred_fires
deferred_fires-Leaves m now has_room armed v =
    let P = λ (n : Recovery). Leaves n true in
    if_split P m.recovering
      (λ on. record {
        valid = record { one_timer = ground (arith, v.one_timer, armed) };
        owed = λ _. ground (arith, on);
      })
      (λ _.
        if_both P has_room
          (record {
            valid = record { one_timer = ground (arith, v.one_timer, armed) };
            owed = λ _. ground arith;
          })
          (record {
            valid = record { one_timer = ground (arith, v.one_timer, armed) };
            owed = λ _. ground arith;
          }))

pub blocked_fires-Leaves :
    (m : Recovery) (now : ℕ) (has_room : Bool)
    → 0 < m.blocked_timers
    → IsValid m
    → Leaves (blocked_fires m now has_room) true
unfolding blocked_fires is_debounced
blocked_fires-Leaves m now has_room armed v =
    let woken : Recovery = record m {
      deferred = false;
      enqueued_at = none;
      blocked_timers = m.blocked_timers - 1;
    } in
    let l =
      enqueue-Leaves woken now has_room
        (record { one_timer = ground (arith, v.one_timer, armed) }) in
    record { valid = l.valid; owed = λ _. l.owed (ground arith) }

-- A recovery that has ended, before what came during it is queued.
abbrev pub settled : Recovery → Recovery
settled m = record m { recovering = false; pending = false }

pub end_recovery-Leaves :
    (m : Recovery) (now : ℕ) (has_room : Bool)
    → IsValid m
    → Leaves
        (end_recovery m now has_room)
        (is_owed m && (not m.pending || is_taken (settled m) now has_room))
unfolding end_recovery
end_recovery-Leaves m now has_room v =
    let l = enqueue-Leaves (settled m) now has_room (record { one_timer = v.one_timer }) in
    if_split
      (λ (n : Recovery).
        Leaves n (is_owed m && (not m.pending || is_taken (settled m) now has_room)))
      m.pending (λ p. record { valid = l.valid; owed = λ o. l.owed (ground (arith, o, p)) })
      (λ p. record { valid = record { one_timer = v.one_timer }; owed = λ o. ground (arith, o, p) })

-- `cleanup` leaves no timer, so only what is noted stays.
schedule-Leaves :
    (m : Recovery) (now : ℕ) (int63n : ℕ → ℕ)
    → IsValid m
    → Leaves (schedule_recover_retry m now int63n) (is_noted m)
unfolding schedule_recover_retry
schedule-Leaves m now int63n v =
    if_both (λ (n : Recovery). Leaves n (is_noted m))
      (is_recovery_exhausted (failed_once m now) now)
      (record { valid = record { one_timer = v.one_timer }; owed = λ o. ground (arith, o) })
      (record { valid = record { one_timer = v.one_timer }; owed = λ o. ground (arith, o) })

pub do_recover-Leaves :
    (m : Recovery) (env : RecoverEnv) → IsValid m → Leaves (do_recover m env) (is_noted m)
unfolding do_recover
do_recover-Leaves m env v =
    let P = λ (n : Recovery). Leaves n (is_noted m) in
    let kept : Leaves (cleaned_up m) (is_noted m) = record {
      valid = record { one_timer = omega arith };
      owed = λ o. ground (arith, o);
    } in
    let later = schedule-Leaves (cleaned_up m) env.now env.int63n kept.valid in
    if_both P env.is_stopping (record { valid = v; owed = λ o. ground (arith, o) })
      (if_both P (not env.reopened)
        (if_both P env.device_gone
          (record { valid = record { one_timer = omega arith }; owed = λ o. ground (arith, o) })
          later)
        (if_both P (not env.quiet) (if_both P m.pending kept later)
          (record { valid = record { one_timer = omega arith }; owed = λ o. ground (arith, o) })))
