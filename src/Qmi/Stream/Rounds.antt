-- ===== src/Qmi/Stream/Rounds.antt =====
-- One round of the loop, and the loop without its fuel.
use qmi_go.Base.{ℕ, zero, suc, ◌≤◌, ◌<◌, ◌≡◌, refl, ap, arith, true, false, inl, inr}
use qmi_go.Base.{List, [], ◌∷◌, length, take, drop, length-drop}
use qmi_go.Base.{Bool-cases, dec_lt, lt→ltb, le→ltb_false}
use qmi_go.Base.Words.{byte_at}
use qmi_go.Qmi.Stream.{
  is_marker, skip_garbage, Round, stop, again, emit, or_stop, round, Drained, with_frame, follow,
  drain_loop, drain, frame_size,
}

pub length-skip_garbage : (xs : List ℕ) → length (skip_garbage xs) ≤ length xs
unfolding skip_garbage
length-skip_garbage [] = omega arith
length-skip_garbage (b ∷ rest) = ground (arith, length-skip_garbage rest)

-- The pending bytes of a round that goes on are fewer.
abbrev Smaller : List ℕ → Round → Type 0
Smaller pending (stop left) = Unit {0}
Smaller pending (again left) = length left < length pending
Smaller pending (emit frame left) = length left < length pending

or_stop-Smaller :
    (pending left : List ℕ) → length left < length pending → Smaller pending (or_stop left)
or_stop-Smaller pending [] h = tt
or_stop-Smaller pending (b ∷ left) h = h

pub skip_shorter :
    (pending : List ℕ)
    → is_marker (byte_at pending 0) ≡ false
    → 3 ≤ length pending
    → length (skip_garbage pending) < length pending
unfolding skip_garbage
skip_shorter [] m h = absurd (omega arith)
skip_shorter (b ∷ rest) m h = rw m (omega (arith, length-skip_garbage rest))

-- Which round is made, with the tests that lead there.
pub data RoundView (pending : List ℕ) : Round → Type 0 where
  waits : RoundView pending (stop pending)
  garbage :
      3 ≤ length pending
      → is_marker (byte_at pending 0) ≡ false
      → RoundView pending (or_stop (skip_garbage pending))
  too_small :
      6 ≤ length pending
      → is_marker (byte_at pending 0) ≡ true
      → frame_size pending < 6
      → RoundView pending (again (drop 1 pending))
  whole :
      6 ≤ length pending
      → is_marker (byte_at pending 0) ≡ true
      → 6 ≤ frame_size pending
      → frame_size pending ≤ length pending
      → RoundView pending
          (emit (take (frame_size pending) pending) (drop (frame_size pending) pending))

module _ (pending : List ℕ) where
  pub round_garbage :
      3 ≤ length pending
      → is_marker (byte_at pending 0) ≡ false
      → round pending ≡ or_stop (skip_garbage pending)
  unfolding round
  round_garbage l m = rw (le→ltb_false (length pending) 3 l, m) refl

  pub round_too_small :
      6 ≤ length pending
      → is_marker (byte_at pending 0) ≡ true
      → frame_size pending < 6
      → round pending ≡ again (drop 1 pending)
  unfolding round
  round_too_small l m s =
      rw
        (
          le→ltb_false (length pending) 3 (omega arith),
          m,
          le→ltb_false (length pending) 6 l,
          lt→ltb (frame_size pending) 6 s,
        )
        refl

  pub round_whole :
      6 ≤ length pending
      → is_marker (byte_at pending 0) ≡ true
      → 6 ≤ frame_size pending
      → frame_size pending ≤ length pending
      → round pending ≡ emit (take (frame_size pending) pending) (drop (frame_size pending) pending)
  unfolding round
  round_whole l m s n =
      rw
        (
          le→ltb_false (length pending) 3 (omega arith),
          m,
          le→ltb_false (length pending) 6 l,
          le→ltb_false (frame_size pending) 6 s,
          le→ltb_false (length pending) (frame_size pending) n,
        )
        refl

  pub round_waits_short : length pending < 3 → round pending ≡ stop pending
  unfolding round
  round_waits_short l = rw (lt→ltb (length pending) 3 l) refl

  round_waits_header :
      3 ≤ length pending
      → is_marker (byte_at pending 0) ≡ true
      → length pending < 6
      → round pending ≡ stop pending
  unfolding round
  round_waits_header l m h =
      rw (le→ltb_false (length pending) 3 l, m, lt→ltb (length pending) 6 h) refl

  round_waits_frame :
      6 ≤ length pending
      → is_marker (byte_at pending 0) ≡ true
      → 6 ≤ frame_size pending
      → length pending < frame_size pending
      → round pending ≡ stop pending
  unfolding round
  round_waits_frame l m s n =
      rw
        (
          le→ltb_false (length pending) 3 (omega arith),
          m,
          le→ltb_false (length pending) 6 l,
          le→ltb_false (frame_size pending) 6 s,
          lt→ltb (length pending) (frame_size pending) n,
        )
        refl

pub round-view : (pending : List ℕ) → RoundView pending (round pending)
round-view pending = elim (dec_lt (length pending) 3) [
  | yes short ↦ rw (round_waits_short pending short) waits
  | no l ↦ elim (Bool-cases (is_marker (byte_at pending 0))) [
    | inr m ↦ rw (round_garbage pending (omega arith) m) (garbage (omega arith) m)
    | inl m ↦ elim (dec_lt (length pending) 6) [
      | yes short ↦ rw (round_waits_header pending (omega arith) m short) waits
      | no l6 ↦ elim (dec_lt (frame_size pending) 6) [
        | yes s ↦ rw (round_too_small pending (omega arith) m s) (too_small (omega arith) m s)
        | no s ↦ elim (dec_lt (length pending) (frame_size pending)) [
          | yes n ↦ rw (round_waits_frame pending (omega arith) m (omega arith) n) waits
          | no n ↦
              rw (round_whole pending (omega arith) m (omega arith) (omega arith))
                (whole (omega arith) m (omega arith) (omega arith))
        ]
      ]
    ]
  ]
]

view-Smaller : (pending : List ℕ) (r : Round) → RoundView pending r → Smaller pending r
view-Smaller pending _ waits = tt
view-Smaller pending _ (garbage l m) =
    or_stop-Smaller pending (skip_garbage pending) (skip_shorter pending m l)
view-Smaller pending _ (too_small l m s) = omega (arith, length-drop 1 pending)
view-Smaller pending _ (whole l m s n) = omega (arith, length-drop (frame_size pending) pending)

round-nil : round [] ≡ stop []
unfolding round
round-nil = refl

follow_fuel :
    (pending : List ℕ) (go go' : List ℕ → Drained) (r : Round)
    → Smaller pending r
    → ((left : List ℕ) → length left < length pending → go left ≡ go' left)
    → follow go r ≡ follow go' r
follow_fuel pending go go' (stop left) s h = refl
follow_fuel pending go go' (again left) s h = h left s
follow_fuel pending go go' (emit frame left) s h = ap (with_frame frame) (h left s)

-- With fuel for every byte, more fuel changes nothing.
drain_loop_fuel :
    (f g : ℕ) (pending : List ℕ)
    → length pending ≤ f
    → length pending ≤ g
    → drain_loop f pending ≡ drain_loop g pending
unfolding drain_loop
drain_loop_fuel zero zero pending hf hg = refl
drain_loop_fuel zero (suc g) [] hf hg = rw round-nil refl
drain_loop_fuel zero (suc g) (b ∷ rest) hf hg = absurd (omega arith)
drain_loop_fuel (suc f) zero [] hf hg = rw round-nil refl
drain_loop_fuel (suc f) zero (b ∷ rest) hf hg = absurd (omega arith)
drain_loop_fuel (suc f) (suc g) pending hf hg =
    follow_fuel pending (drain_loop f) (drain_loop g) (round pending)
      (view-Smaller pending (round pending) (round-view pending))
      (λ left h. drain_loop_fuel f g left (omega arith) (omega arith))

-- The loop of the source, with no fuel: the equation that `drain` satisfies at every input.
pub drain-round : (pending : List ℕ) → drain pending ≡ follow drain (round pending)
unfolding drain
drain-round [] = rw round-nil refl
drain-round (b ∷ rest) =
    follow_fuel (b ∷ rest) (drain_loop (length rest)) drain (round (b ∷ rest))
      (view-Smaller (b ∷ rest) (round (b ∷ rest)) (round-view (b ∷ rest)))
      (λ left h. drain_loop_fuel (length rest) (length left) left (omega arith) (omega arith))
