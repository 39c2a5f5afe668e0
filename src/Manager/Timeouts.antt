-- ===== src/Manager/Timeouts.antt =====
-- pkg/manager/service_recovery.go: how often an operation of a service has timed out, and the storm of
-- timeouts over several services. The key of an operation is its normalised pair of names, as a number,
-- and so is a service; times are milliseconds on one clock, and an elapsed time is 0 where the clock is
-- behind. A threshold or window of 0 stands for every value that is not positive.
use qmi_go.Base.{
  ℕ, ◌+◌, ◌-◌, ◌≤◌, ◌≡◌, refl, sym, ap, subst, ◌∙◌, arith, List, [], ◌∷◌, Bool, true, false, ◌&&◌,
  All, length,
}
use qmi_go.Base.{ltb, leb, ◌==◌, if◌then◌else◌, Option, none, some, le→ltb_false, ==_self}
use qmi_go.Base.Maps.{lookup, insert, erase, lookup-insert}

pub record ServiceTimeoutWindow : Type 0 where
  pub first : ℕ
  pub count : ℕ

-- The fields `globalTimeout...`, and how many core recoveries have been asked for.
pub record Storm : Type 0 where
  pub services : List (ℕ × ℕ)
  pub storm_at : Option ℕ
  pub resets : ℕ

pub record Timeouts : Type 0 where
  pub disabled : Bool
  pub threshold : ℕ
  pub window : ℕ
  pub failures : List (ℕ × ServiceTimeoutWindow)
  pub service_timeouts : ℕ
  pub recoveries : ℕ
  pub storm : Storm

abbrev pub default_threshold : ℕ
default_threshold = 5

abbrev pub default_window : ℕ
default_window = 600000

abbrev pub threshold_of : Timeouts → ℕ
threshold_of t = if t.threshold == 0 then default_threshold else t.threshold

abbrev pub window_of : Timeouts → ℕ
window_of t = if t.window == 0 then default_window else t.window

unfoldable pub recent_services : ℕ → List (ℕ × ℕ) → List (ℕ × ℕ)
recent_services now [] = []
recent_services now ((service, at) ∷ rest) =
    let more = recent_services now rest in
    if ltb 5000 (now - at) then more else (service, at) ∷ more

unfoldable pub cooled_down : Option ℕ → ℕ → Bool
cooled_down none now = true
cooled_down (some at) now = ltb 30000 (now - at)

unfoldable pub detect_timeout_storm : Storm → ℕ → ℕ → Storm
detect_timeout_storm s service now =
    let seen = insert service now (recent_services now s.services) in
    if leb 2 (length seen) && cooled_down s.storm_at now
    then record { services = []; storm_at = some now; resets = s.resets + 1 }
    else record s { services = seen }

-- The window that a failure falls into, with the failure counted.
unfoldable pub next_window : Timeouts → ℕ → ℕ → ServiceTimeoutWindow
next_window t key now = elim (lookup key t.failures) [
  | none ↦ record { first = now; count = 1 }
  | some w ↦
      if ltb (window_of t) (now - w.first)
      then record { first = now; count = 1 }
      else record { first = w.first; count = w.count + 1 }
]

unfoldable pub record_service_timeout_failure : Timeouts → ℕ → ℕ → ℕ → Timeouts × Bool
record_service_timeout_failure t service key now =
    let w = next_window t key now in
    if t.disabled then (record t { service_timeouts = t.service_timeouts + 1 }, false) else (
      record t {
        service_timeouts = t.service_timeouts + 1;
        failures = insert key w t.failures;
        recoveries = if w.count == threshold_of t then t.recoveries + 1 else t.recoveries;
        storm = detect_timeout_storm t.storm service now;
      },
      leb (threshold_of t) w.count,
    )

unfoldable pub note_service_operation_success : Timeouts → ℕ → Timeouts
note_service_operation_success t key = record t { failures = erase key t.failures }

-- Failures of one operation, one after the other.
unfoldable pub fail_at : Timeouts → ℕ → ℕ → List ℕ → Timeouts
fail_at t service key [] = t
fail_at t service key (now ∷ rest) =
    fail_at (record_service_timeout_failure t service key now).0 service key rest

pub record IsFailing (t : Timeouts) (key first count recoveries : ℕ) (d : Timeouts) : Type 0 where
  pub counted : lookup key d.failures ≡ some (record { first = first; count = count })
  pub recovered : d.recoveries ≡ recoveries
  pub enabled : d.disabled ≡ false
  pub same_threshold : threshold_of d ≡ threshold_of t
  pub same_window : window_of d ≡ window_of t

next_window-soon :
    (t : Timeouts) (key now first count : ℕ)
    → lookup key t.failures ≡ some (record { first = first; count = count })
    → now ≤ first + window_of t
    → next_window t key now ≡ record { first = first; count = count + 1 }
unfolding next_window
next_window-soon t key now first count found soon =
    rw (found, next_window)
      (rw (le→ltb_false (window_of t) (now - first) (omega (arith, soon))) refl)

-- What a failure leaves, where recovery is not disabled and `w` is its window.
abbrev failed_in : Timeouts → ℕ → ℕ → ℕ → ServiceTimeoutWindow → Timeouts
failed_in t service key now w = record t {
  service_timeouts = t.service_timeouts + 1;
  failures = insert key w t.failures;
  recoveries = if w.count == threshold_of t then t.recoveries + 1 else t.recoveries;
  storm = detect_timeout_storm t.storm service now;
}

record-enabled :
    (t : Timeouts) (service key now : ℕ)
    → t.disabled ≡ false
    → record_service_timeout_failure t service key now ≡ (
      failed_in t service key now (next_window t key now),
      leb (threshold_of t) (next_window t key now).count,
    )
unfolding record_service_timeout_failure
record-enabled t service key now on = ground (arith, on)

failed-IsFailing :
    (t : Timeouts) (service key now : ℕ) (w : ServiceTimeoutWindow)
    → t.disabled ≡ false
    → IsFailing t key w.first w.count
        (if w.count == threshold_of t then t.recoveries + 1 else t.recoveries)
        (failed_in t service key now w)
failed-IsFailing t service key now w on = record {
  counted = lookup-insert key key w t.failures ∙ rw (==_self key) refl;
  recovered = refl;
  enabled = on;
  same_threshold = refl;
  same_window = refl;
}

one_more :
    (t : Timeouts) (service key now first count : ℕ)
    → t.disabled ≡ false
    → lookup key t.failures ≡ some (record { first = first; count = count })
    → now ≤ first + window_of t
    → IsFailing t key first
        (count + 1)
        (if count + 1 == threshold_of t then t.recoveries + 1 else t.recoveries)
        (record_service_timeout_failure t service key now).0
one_more t service key now first count on found soon =
    let w : ServiceTimeoutWindow = record { first = first; count = count + 1 } in
    let after : (record_service_timeout_failure t service key now).0
        ≡ failed_in t service key now w =
      ap (λ (r : Timeouts × Bool). r.0) (record-enabled t service key now on)
      ∙ ap (failed_in t service key now) (next_window-soon t key now first count found soon) in
    subst
      (λ d.
        IsFailing t key first (count + 1)
          (if count + 1 == threshold_of t then t.recoveries + 1 else t.recoveries) d)
      (sym after) (failed-IsFailing t service key now w on)

-- While an operation goes on failing within the window of its first failure, where recovery is enabled,
-- each failure is counted,
-- and one recovery is counted over them all, when the count comes to the threshold.
pub fail_at-IsFailing :
    (t : Timeouts) (service key first count : ℕ) (times : List ℕ)
    → t.disabled ≡ false
    → lookup key t.failures ≡ some (record { first = first; count = count })
    → All (λ now. now ≤ first + window_of t) times
    → IsFailing t key first
        (count + length times)
        (if ltb count (threshold_of t) && leb (threshold_of t) (count + length times)
          then t.recoveries + 1
          else t.recoveries)
        (fail_at t service key times)
unfolding fail_at
fail_at-IsFailing t service key first count [] on found soon = record {
  counted = ground (arith, found);
  recovered = ground arith;
  enabled = on;
  same_threshold = refl;
  same_window = refl;
}
fail_at-IsFailing t service key first count (now ∷ times) on found soon =
    let d = (record_service_timeout_failure t service key now).0 in
    let one = one_more t service key now first count on found soon.0 in
    let all_soon = subst (λ w. All (λ x. x ≤ first + w) times) (sym one.same_window) soon.1 in
    let more =
      fail_at-IsFailing d service key first (count + 1) times one.enabled one.counted all_soon in
    record {
      counted = ground (arith, more.counted);
      recovered = ground (arith, more.recovered, one.recovered, one.same_threshold);
      enabled = more.enabled;
      same_threshold = more.same_threshold ∙ one.same_threshold;
      same_window = more.same_window ∙ one.same_window;
    }

-- Timeouts of services, one after the other: each a service and its time.
unfoldable pub storm_after : Storm → List (ℕ × ℕ) → Storm
storm_after s [] = s
storm_after s ((service, now) ∷ rest) = storm_after (detect_timeout_storm s service now) rest

calm :
    (s : Storm) (service now at : ℕ)
    → s.storm_at ≡ some at
    → now ≤ at + 30000
    → ((detect_timeout_storm s service now).resets ≡ s.resets)
      × ((detect_timeout_storm s service now).storm_at ≡ some at)
unfolding detect_timeout_storm cooled_down
calm s service now at stormed soon = ground (arith, stormed, soon)

-- Within 30 seconds of a storm, no core recovery is asked for again, whatever services time out.
pub storm_after-calm :
    (s : Storm) (at : ℕ) (timeouts : List (ℕ × ℕ))
    → s.storm_at ≡ some at
    → All (λ t. t.1 ≤ at + 30000) timeouts
    → (storm_after s timeouts).resets ≡ s.resets
unfolding storm_after
storm_after-calm s at [] stormed soon = refl
storm_after-calm s at ((service, now) ∷ rest) stormed soon =
    let one = calm s service now at stormed soon.0 in
    storm_after-calm (detect_timeout_storm s service now) at rest one.1 soon.1 ∙ one.0
