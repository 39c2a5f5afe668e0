-- ===== src/Manager/Recovery/Backoff.antt =====
-- The delays between the retries of a recovery.
use qmi_go.Base.{
  ℕ, zero, suc, ◌+◌, ◌-◌, ◌*◌, ◌/◌, ◌^◌, ◌≤◌, ◌<◌, min, ◌≡◌, ap, ◌∙◌, sym, subst, arith,
}
use native.Mathlib.Nat.{mul_assoc, pow-succ'}
use qmi_go.Base.{ltb, leb, if_split}
use qmi_go.Manager.Recovery.{
  recover_backoff_base, recover_backoff_max, double_delay, jittered, get_recover_delay,
}

doubled : (n d : ℕ) → d * 2 * 2 ^ n ≡ d * 2 ^ suc n
doubled n d = mul_assoc d 2 (2 ^ n) ∙ ap (λ (x : ℕ). d * x) (sym (pow-succ' 2 n))

at_least_doubled : (n d : ℕ) → d * 2 ≤ d * 2 ^ suc n
at_least_doubled zero d = omega arith
at_least_doubled (suc n) d =
    let h = at_least_doubled n d in let e = doubled (suc n) d in ground (arith, h, e)

power-positive : (n : ℕ) → 1 ≤ 2 ^ n
power-positive zero = omega arith
power-positive (suc n) = let h = power-positive n in ground arith

-- The loop doubles the delay once a round, up to the maximum.
double_delay-min :
    (rounds delay : ℕ)
    → delay ≤ recover_backoff_max
    → double_delay rounds delay ≡ min (delay * 2 ^ rounds) recover_backoff_max
unfolding double_delay
double_delay-min zero delay h = omega arith
double_delay-min (suc rounds) delay h =
    let p = at_least_doubled rounds delay in
    let P : ℕ → Type 0 = λ n. n ≡ min (delay * 2 ^ suc rounds) recover_backoff_max in
    if_split P (leb recover_backoff_max delay) (λ full. ground (arith, full, p))
      (λ _.
        if_split P (ltb recover_backoff_max (delay * 2)) (λ full. ground (arith, full, p))
          (λ more.
            double_delay-min rounds (delay * 2) (ground (arith, more))
            ∙ ap (λ (x : ℕ). min x recover_backoff_max) (doubled rounds delay)))

-- A jitter of at most a fifth, both ways.
jittered-bounds :
    (delay drawn : ℕ)
    → recover_backoff_base ≤ delay
    → drawn < delay / 5 * 2 + 1
    → (delay * 4 ≤ jittered delay drawn * 5) × (jittered delay drawn * 5 ≤ delay * 6)
unfolding jittered
jittered-bounds delay drawn base drew = (ground (arith, base, drew), ground (arith, base, drew))

-- The delay before a retry: with the n-th failure in a row, 500 ms doubled n - 1 times and at most 15 s,
-- and a fifth of that up or down at most, whatever is drawn.
pub get_recover_delay-bounds :
    (recover_count : ℕ) (int63n : ℕ → ℕ)
    → ((n : ℕ) → 0 < n → int63n n < n)
    → let due = min (recover_backoff_base * 2 ^ (recover_count - 1)) recover_backoff_max in
      (due * 4 ≤ get_recover_delay recover_count int63n * 5)
      × (get_recover_delay recover_count int63n * 5 ≤ due * 6)
unfolding get_recover_delay
get_recover_delay-bounds recover_count int63n draws =
    let e = double_delay-min (recover_count - 1) recover_backoff_base (omega arith) in
    let delay = double_delay (recover_count - 1) recover_backoff_base in
    let b =
      jittered-bounds delay (int63n (delay / 5 * 2 + 1))
        (ground (arith, e, power-positive (recover_count - 1)))
        (draws (delay / 5 * 2 + 1) (omega arith)) in
    subst
      (λ (due : ℕ).
        (due * 4 ≤ get_recover_delay recover_count int63n * 5)
        × (get_recover_delay recover_count int63n * 5 ≤ due * 6))
      e b
