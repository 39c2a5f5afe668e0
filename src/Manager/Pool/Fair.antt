-- ===== src/Manager/Pool/Fair.antt =====
-- RoundRobinSelector: over one list of modems, each has its turn.
use qmi_go.Base.{
  ℕ, zero, suc, ◌+◌, ◌-◌, ◌%◌, ◌≤◌, ◌<◌, ◌≡◌, refl, sym, ap, ◌∙◌, arith, List, [], ◌∷◌,
}
use qmi_go.Base.{length, get_or, Option, none, some, ltb, if◌then◌else◌, dec_lt, All, ◌≢◌}
use native.Mathlib.Nat.{mod-lt, mod-eq_of_lt, mod-eq-sub-mod, mod-add-mod}
use qmi_go.Manager.Pool.Selectors.{Selector, Choice, round_robin, select, next_counter}

-- The selector after `earlier` choices from the list.
abbrev pub after : ℕ → Selector → Choice → List ℕ → Selector
after zero s choice modems = s
after (suc earlier) s choice modems = (select (after earlier s choice modems) choice modems).0

after-counter :
    (earlier counter : ℕ) (choice : Choice) (mgr : ℕ) (rest : List ℕ)
    → counter + earlier < 18446744073709551616
    → after earlier (round_robin counter) choice (mgr ∷ rest) ≡ round_robin (counter + earlier)
unfolding select next_counter
after-counter zero counter choice mgr rest h = ap round_robin (omega arith)
after-counter (suc earlier) counter choice mgr rest h =
    ap (λ (s : Selector). (select s choice (mgr ∷ rest)).0)
      (after-counter earlier counter choice mgr rest (omega arith))
    ∙ ap round_robin (omega arith)

-- The place that the counter `c + k` points to, from that of `c` on.
place-from :
    (c k n : ℕ)
    → k ≤ n
    → 1 ≤ n
    → (c + k) % n ≡ (if ltb (c % n + k) n then c % n + k else (c % n + k) - n)
place-from c k n h some_place =
    let small : c % n < n = mod-lt c (omega arith) in
    let here : (c % n + k) % n ≡ (c + k) % n = mod-add-mod c n k in
    elim (dec_lt (c % n + k) n) [
      | yes below ↦ sym here ∙ mod-eq_of_lt below ∙ ground arith
      | no beyond ↦
          sym here ∙ mod-eq-sub-mod (omega arith) ∙ mod-eq_of_lt (omega arith) ∙ ground arith
    ]

-- No manager stands twice in a list.
abbrev pub AllDifferent : List ℕ → Type 0
AllDifferent [] = Unit {0}
AllDifferent (mgr ∷ rest) = All (λ other. mgr ≢ other) rest × AllDifferent rest

All-get_or :
    (mgr : ℕ) (rest : List ℕ) (i : ℕ)
    → All (λ other. mgr ≢ other) rest
    → i < length rest
    → mgr ≢ get_or rest i 0
All-get_or mgr [] i h bound = absurd (omega arith)
All-get_or mgr (other ∷ rest) zero h bound = h.0
All-get_or mgr (other ∷ rest) (suc i) h bound = All-get_or mgr rest i h.1 (omega arith)

AllDifferent-get_or :
    (modems : List ℕ) (i j : ℕ)
    → AllDifferent modems
    → i < length modems
    → j < length modems
    → get_or modems i 0 ≡ get_or modems j 0
    → i ≡ j
AllDifferent-get_or [] i j h hi hj same = absurd (omega arith)
AllDifferent-get_or (mgr ∷ rest) zero zero h hi hj same = refl
AllDifferent-get_or (mgr ∷ rest) zero (suc j) h hi hj same =
    absurd (All-get_or mgr rest j h.0 (omega arith) same)
AllDifferent-get_or (mgr ∷ rest) (suc i) zero h hi hj same =
    absurd (All-get_or mgr rest i h.0 (omega arith) (sym same))
AllDifferent-get_or (mgr ∷ rest) (suc i) (suc j) h hi hj same =
    ap suc (AllDifferent-get_or rest i j h.1 (omega arith) (omega arith) same)

-- The choice after `k` others.
abbrev pub nth_choice : ℕ → ℕ → Choice → List ℕ → Option ℕ
nth_choice k counter choice modems =
    (select (after k (round_robin counter) choice modems) choice modems).1

abbrev place : ℕ → ℕ → ℕ → ℕ
place counter k n = (counter + suc k) % n

nth_choice-place :
    (k counter : ℕ) (choice : Choice) (mgr : ℕ) (rest : List ℕ)
    → counter + suc k < 18446744073709551616
    → nth_choice k counter choice (mgr ∷ rest)
      ≡ some (get_or (mgr ∷ rest) (place counter k (length (mgr ∷ rest))) 0)
unfolding select next_counter
nth_choice-place k counter choice mgr rest h =
    ap (λ (s : Selector). (select s choice (mgr ∷ rest)).1)
      (after-counter k counter choice mgr rest (omega arith))
    ∙ ap (λ (c : ℕ). some (get_or (mgr ∷ rest) (c % length (mgr ∷ rest)) 0)) (omega arith)

-- The place `i` is met at this choice, and at no other of the `n`.
abbrev turn_of : ℕ → ℕ → ℕ → ℕ
turn_of counter i n = let r = counter % n in if ltb r i then (i - r) - 1 else (i + n - r) - 1

turn_of-place :
    (counter i n : ℕ)
    → i < n
    → (turn_of counter i n < n) × (place counter (turn_of counter i n) n ≡ i)
turn_of-place counter i n h =
    let small : counter % n < n = mod-lt counter (omega arith) in
    let k = turn_of counter i n in
    let bound : k < n = ground arith in
    (bound, place-from counter (suc k) n bound (omega arith) ∙ ground arith)

place_once : (counter j k n : ℕ) → j < n → k < n → place counter j n ≡ place counter k n → j ≡ k
place_once counter j k n hj hk same =
    let small : counter % n < n = mod-lt counter (omega arith) in
    let left = place-from counter (suc j) n hj (omega arith) in
    let right = place-from counter (suc k) n hk (omega arith) in ground (arith, left, right)

pub record HasTurn (counter : ℕ) (choice : Choice) (modems : List ℕ) (i : ℕ) : Type 0 where
  pub turn : ℕ
  pub in_round : turn < length modems
  pub is_chosen : nth_choice turn counter choice modems ≡ some (get_or modems i 0)
  pub only_turn :
      (other : ℕ)
      → other < length modems
      → nth_choice other counter choice modems ≡ some (get_or modems i 0)
      → other ≡ turn

-- While the list of modems stays the same and the counter does not wrap, each of n modems, all
-- different, is chosen at exactly one of the next n choices.
pub round_robin-HasTurn :
    (counter : ℕ) (choice : Choice) (modems : List ℕ) (i : ℕ)
    → AllDifferent modems
    → i < length modems
    → counter + length modems < 18446744073709551616
    → HasTurn counter choice modems i
round_robin-HasTurn counter choice [] i different bound room = absurd (omega arith)
round_robin-HasTurn counter choice (mgr ∷ rest) i different bound room =
    let modems : List ℕ = mgr ∷ rest in
    let n = length modems in
    let turn = turn_of counter i n in
    let on_turn = turn_of-place counter i n bound in
    let at : (k : ℕ)
        → k < n
        → nth_choice k counter choice modems ≡ some (get_or modems (place counter k n) 0) =
      λ k h. nth_choice-place k counter choice mgr rest (omega arith) in
    record {
      turn = turn;
      in_round = on_turn.0;
      is_chosen = at turn on_turn.0 ∙ ap (λ (p : ℕ). some (get_or modems p 0)) on_turn.1;
      only_turn = λ other h same. place_once counter other turn n h on_turn.0 (
          AllDifferent-get_or modems (place counter other n) i different
            (mod-lt (counter + suc other) (omega arith)) bound
            (ap (λ (o : Option ℕ). elim o [ none ↦ 0 | some m ↦ m ]) (sym (at other h) ∙ same))
          ∙ sym on_turn.1);
    }
