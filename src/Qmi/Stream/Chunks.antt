-- ===== src/Qmi/Stream/Chunks.antt =====
-- How the bytes are split over reads does not matter.
use qmi_go.Base.{ℕ, zero, suc, ◌≤◌, ◌<◌, ◌≡◌, refl, ap, ◌∙◌, sym, arith, true, inl, inr}
use qmi_go.Base.{List, [], ◌∷◌, ◌++◌, append-nil, append_assoc, length, take, drop, length-append}
use qmi_go.Base.{take-append_le, drop-append_le, get_or-append_lt, Bool-cases, length-drop, dec_lt}
use qmi_go.Base.Words.{byte_at}
use qmi_go.Qmi.Stream.{
  is_marker, skip_garbage, Round, again, emit, or_stop, round, Drained, follow, drain, frame_size,
  feed_all, concat, and_then,
}
use qmi_go.Qmi.Stream.Rounds.{
  RoundView, waits, garbage, too_small, whole, round-view, round_garbage, round_too_small,
  round_whole, drain-round, length-skip_garbage, round_waits_short, skip_shorter,
}

-- The same frames, and pending bytes that differ only by bytes that will be skipped.
abbrev pub Agree : Drained → Drained → Type 0
Agree (frames, left) (frames', left') =
    (frames ≡ frames') × (skip_garbage left ≡ skip_garbage left')

Agree-sym : (d e : Drained) → Agree d e → Agree e d
Agree-sym d e (p, q) = (sym p, sym q)

Agree-trans : (d e f : Drained) → Agree d e → Agree e f → Agree d f
Agree-trans d e f (p, q) (p', q') = (p ∙ p', q ∙ q')

skip_garbage_twice : (xs : List ℕ) → skip_garbage (skip_garbage xs) ≡ skip_garbage xs
unfolding skip_garbage
skip_garbage_twice [] = refl
skip_garbage_twice (b ∷ rest) = elim (Bool-cases (is_marker b)) [
  | inl m ↦ rw m (rw m refl)
  | inr m ↦ rw m (skip_garbage_twice rest)
]

-- Where bytes are left behind the garbage, what follows them is left too.
skip_garbage-append :
    (xs ys : List ℕ) (b : ℕ) (left : List ℕ)
    → skip_garbage xs ≡ b ∷ left
    → skip_garbage (xs ++ ys) ≡ (b ∷ left) ++ ys
unfolding skip_garbage
skip_garbage-append [] ys b left e = absurd (cc)
skip_garbage-append (x ∷ xs) ys b left e = elim (Bool-cases (is_marker x)) [
  | inl m ↦ rw m (ap (λ (l : List ℕ). l ++ ys) (rw m at e))
  | inr m ↦ rw m (skip_garbage-append xs ys b left (rw m at e))
]

skip_garbage-append_all :
    (xs ys : List ℕ) → skip_garbage xs ≡ [] → skip_garbage (xs ++ ys) ≡ skip_garbage ys
unfolding skip_garbage
skip_garbage-append_all [] ys e = refl
skip_garbage-append_all (x ∷ xs) ys e = elim (Bool-cases (is_marker x)) [
  | inl m ↦ absurd (cc (rw m at e))
  | inr m ↦ rw m (skip_garbage-append_all xs ys (rw m at e))
]

pub drain_short : (xs : List ℕ) → length xs < 3 → drain xs ≡ ([], xs)
drain_short xs h = drain-round xs ∙ rw (round_waits_short xs h) refl

drain-or_stop : (xs : List ℕ) → follow drain (or_stop xs) ≡ drain xs
drain-or_stop [] = sym (drain_short [] (omega arith))
drain-or_stop (b ∷ xs) = refl

-- Skipping first changes nothing.
drain-skip_garbage : (xs : List ℕ) → Agree (drain xs) (drain (skip_garbage xs))
drain-skip_garbage [] = unfold skip_garbage in (refl, refl)
drain-skip_garbage (b ∷ xs) = elim (Bool-cases (is_marker b)) [
  | inl m ↦
      let e : skip_garbage (b ∷ xs) ≡ b ∷ xs = unfold skip_garbage in rw m refl in rw e (refl, refl)
  | inr m ↦ elim (dec_lt (length (b ∷ xs)) 3) [
    | yes short ↦
        rw
          (
            drain_short (b ∷ xs) short,
            drain_short (skip_garbage (b ∷ xs)) (omega (arith, length-skip_garbage (b ∷ xs))),
          )
          (refl, sym (skip_garbage_twice (b ∷ xs)))
    | no long ↦
        rw
          (
            drain-round (b ∷ xs),
            round_garbage (b ∷ xs) (omega arith) m,
            drain-or_stop (skip_garbage (b ∷ xs)),
          )
          (refl, refl)
  ]
]

-- A longer input makes the same round.
module _ (p c : List ℕ) (long : 6 ≤ length p) (m : is_marker (byte_at p 0) ≡ true) where
  pub first_kept : is_marker (byte_at (p ++ c) 0) ≡ true
  first_kept = rw (get_or-append_lt p c 0 0 (omega arith)) m

  pub size_kept : frame_size (p ++ c) ≡ frame_size p
  size_kept =
      rw (get_or-append_lt p c 1 0 (omega arith), get_or-append_lt p c 2 0 (omega arith)) refl

  round-append_too_small : frame_size p < 6 → round (p ++ c) ≡ again (drop 1 p ++ c)
  round-append_too_small s =
      round_too_small (p ++ c) (omega (arith, length-append p c)) first_kept
        (omega (arith, size_kept))
      ∙ ap again (drop-append_le 1 p c (omega arith))

  round-append_whole :
      6 ≤ frame_size p
      → frame_size p ≤ length p
      → round (p ++ c) ≡ emit (take (frame_size p) p) (drop (frame_size p) p ++ c)
  round-append_whole s n =
      round_whole (p ++ c) (omega (arith, length-append p c)) first_kept (omega (arith, size_kept))
        (omega (arith, size_kept, length-append p c))
      ∙ rw (size_kept, take-append_le (frame_size p) p c n, drop-append_le (frame_size p) p c n)
          refl

abbrev pub Splits : List ℕ → List ℕ → Drained → Type 0
Splits p c d = Agree (drain (p ++ c)) (and_then d (λ left. drain (left ++ c)))

skipped-Splits : (p c q : List ℕ) → skip_garbage p ≡ q → Splits q c (drain q) → Splits p c (drain q)
skipped-Splits p c [] e ih = Agree-trans _ _ _ (drain-skip_garbage (p ++ c)) (
    rw (skip_garbage-append_all p c e, drain_short [] (omega arith))
      (Agree-sym _ _ (drain-skip_garbage c)))
skipped-Splits p c (b ∷ q) e ih =
    Agree-trans _ _ _ (drain-skip_garbage (p ++ c)) (rw (skip_garbage-append p c b q e) ih)

view-Splits :
    (p c : List ℕ) (r : Round)
    → RoundView p r
    → ((q : List ℕ) → length q < length p → Splits q c (drain q))
    → Splits p c (follow drain r)
view-Splits p c _ waits ih = (refl, refl)
view-Splits p c _ (garbage l m) ih =
    rw (drain-or_stop (skip_garbage p))
      (skipped-Splits p c (skip_garbage p) refl (ih (skip_garbage p) (skip_shorter p m l)))
view-Splits p c _ (too_small l m s) ih =
    rw (drain-round (p ++ c), round-append_too_small p c l m s)
      (ih (drop 1 p) (omega (arith, length-drop 1 p)))
view-Splits p c _ (whole l m s n) ih =
    let rest = ih (drop (frame_size p) p) (omega (arith, length-drop (frame_size p) p)) in
    rw (drain-round (p ++ c), round-append_whole p c l m s n)
      (ap (◌∷◌ (take (frame_size p) p)) rest.0, rest.1)

below-Splits : (n : ℕ) (p c : List ℕ) → length p < n → Splits p c (drain p)
below-Splits zero p c h = absurd (omega arith)
below-Splits (suc n) p c h =
    rw (drain-round p)
      (view-Splits p c (round p) (round-view p) (λ q hq. below-Splits n q c (omega arith)))

-- The loop may stop anywhere and go on when more bytes have come: the frames are those of one run
-- over all the bytes, and what stays pending differs at most by bytes that will be skipped.
pub drain-Splits : (p c : List ℕ) → Splits p c (drain p)
drain-Splits p c = below-Splits (suc (length p)) p c (omega arith)

-- Nothing more comes out of what stays pending.
abbrev IsSettled : Drained → Type 0
IsSettled d = drain d.1 ≡ ([], d.1)

view-IsSettled :
    (p : List ℕ) (r : Round)
    → RoundView p r
    → round p ≡ r
    → ((q : List ℕ) → length q < length p → IsSettled (drain q))
    → IsSettled (follow drain r)
view-IsSettled p _ waits e ih = drain-round p ∙ ap (follow drain) e
view-IsSettled p _ (garbage l m) e ih =
    rw (drain-or_stop (skip_garbage p)) (ih (skip_garbage p) (skip_shorter p m l))
view-IsSettled p _ (too_small l m s) e ih = ih (drop 1 p) (omega (arith, length-drop 1 p))
view-IsSettled p _ (whole l m s n) e ih =
    ih (drop (frame_size p) p) (omega (arith, length-drop (frame_size p) p))

below-IsSettled : (n : ℕ) (p : List ℕ) → length p < n → IsSettled (drain p)
below-IsSettled zero p h = absurd (omega arith)
below-IsSettled (suc n) p h =
    rw (drain-round p)
      (view-IsSettled p (round p) (round-view p) refl (λ q hq. below-IsSettled n q (omega arith)))

drain-IsSettled : (p : List ℕ) → IsSettled (drain p)
drain-IsSettled p = below-IsSettled (suc (length p)) p (omega arith)

settled_reads :
    (p : List ℕ) (chunks : List (List ℕ))
    → drain p ≡ ([], p)
    → Agree (feed_all p chunks) (drain (p ++ concat chunks))
unfolding feed_all
settled_reads p [] e = rw (append-nil p, e) (refl, refl)
settled_reads p ([] ∷ chunks) e = settled_reads p chunks e
settled_reads p ((b ∷ chunk) ∷ chunks) e =
    let first = drain (p ++ (b ∷ chunk)) in
    let rest = settled_reads first.1 chunks (drain-IsSettled (p ++ (b ∷ chunk))) in
    rw (← append_assoc p (b ∷ chunk) (concat chunks)) (
      Agree-trans _ _ _ (ap (◌++◌ first.0) rest.0, rest.1)
        (Agree-sym _ _ (drain-Splits (p ++ (b ∷ chunk)) (concat chunks))))

-- However a byte stream is split over reads, empty ones included, the loop hands on the frames of
-- one run over the whole stream, and what stays pending differs at most by bytes to be skipped.
pub feed_all-concat : (chunks : List (List ℕ)) → Agree (feed_all [] chunks) (drain (concat chunks))
feed_all-concat chunks = settled_reads [] chunks (drain_short [] (omega arith))
