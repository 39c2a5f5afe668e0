-- ===== src/Manager/Gate/Skip.antt =====
-- The loop over cancelled tickets ends at a ticket that is not cancelled.
use qmi_go.Base.{ℕ, zero, suc, ◌+◌, ◌≤◌, ◌<◌, ◌≡◌, refl, arith, true, false}
use qmi_go.Base.{
  List, [], ◌∷◌, length, leb, ltb, ◌&&◌, ◌==◌, if◌then◌else◌, Bool-cases, inl, inr, subst, dec_lt,
}
use qmi_go.Manager.Gate.{CardAccessGate, init, contains, delete, skip_loop, skip_canceled}

pub contains-delete :
    (t s : ℕ) (xs : List ℕ) → contains t (delete s xs) ≡ (if s == t then false else contains t xs)
unfolding contains delete
contains-delete t s [] = ground arith
contains-delete t s (x ∷ xs) = ground (arith, contains-delete t s xs)

length-delete_le : (s : ℕ) (xs : List ℕ) → length (delete s xs) ≤ length xs
unfolding delete
length-delete_le s [] = omega arith
length-delete_le s (x ∷ xs) = ground (arith, length-delete_le s xs)

length-delete_lt : (s : ℕ) (xs : List ℕ) → contains s xs ≡ true → length (delete s xs) < length xs
unfolding contains delete
length-delete_lt s [] h = absurd (cc)
length-delete_lt s (x ∷ xs) h = ground (arith, length-delete_le s xs, length-delete_lt s xs)

contains-nil : (t : ℕ) (xs : List ℕ) → length xs ≡ 0 → contains t xs ≡ false
unfolding contains
contains-nil t [] h = refl
contains-nil t (x ∷ xs) h = absurd (omega arith)

-- What a skip does: it moves the served ticket up over cancelled ones and forgets those, and
-- nothing else.
pub record Skips (g h : CardAccessGate) : Type 0 where
  pub same_active : h.active ≡ g.active
  pub same_barrier : h.barrier ≡ g.barrier
  pub same_next : h.next_ticket ≡ g.next_ticket
  pub same_generation : h.generation ≡ g.generation
  pub up : g.serving_ticket ≤ h.serving_ticket
  pub live : contains h.serving_ticket h.canceled ≡ false
  pub over : (t : ℕ) → g.serving_ticket ≤ t → t < h.serving_ticket → contains t g.canceled ≡ true
  pub kept :
      (t : ℕ)
      → contains t h.canceled ≡ (
          if leb g.serving_ticket t && ltb t h.serving_ticket then false else contains t g.canceled)

no_skip : (g : CardAccessGate) → contains g.serving_ticket g.canceled ≡ false → Skips g g
no_skip g live = record {
  same_active = refl;
  same_barrier = refl;
  same_next = refl;
  same_generation = refl;
  up = omega arith;
  live = live;
  over = λ t lo hi. absurd (omega arith);
  kept = λ t. ground arith;
}

-- One cancelled ticket, and then the rest.
one_skip :
    (g h : CardAccessGate)
    → contains g.serving_ticket g.canceled ≡ true
    → Skips
        (record g {
          canceled = delete g.serving_ticket g.canceled;
          serving_ticket = g.serving_ticket + 1;
        })
        h
    → Skips g h
one_skip g h dead s = record {
  same_active = s.same_active;
  same_barrier = s.same_barrier;
  same_next = s.same_next;
  same_generation = s.same_generation;
  up = omega (arith, s.up);
  live = s.live;
  over = λ t lo hi. elim (dec_lt g.serving_ticket t) [
    | yes later ↦
        ground (arith, s.over t (omega arith) hi, contains-delete t g.serving_ticket g.canceled)
    | no first ↦
        let e : g.serving_ticket ≡ t = omega arith in
        subst (λ (k : ℕ). contains k g.canceled ≡ true) e dead
  ];
  kept = λ t. ground (arith, s.kept t, s.up, contains-delete t g.serving_ticket g.canceled);
}

skip_loop-Skips :
    (fuel : ℕ) (g : CardAccessGate) → length g.canceled ≤ fuel → Skips g (skip_loop fuel g)
unfolding skip_loop
skip_loop-Skips zero g h = no_skip g (contains-nil g.serving_ticket g.canceled (omega arith))
skip_loop-Skips (suc fuel) g h = elim (Bool-cases (contains g.serving_ticket g.canceled)) [
  | inr live ↦ rw (live, skip_loop) (no_skip g live)
  | inl dead ↦
      rw (dead, skip_loop)
        (one_skip g _ dead (
          skip_loop-Skips fuel _
            (omega (arith, length-delete_lt g.serving_ticket g.canceled dead))))
]

-- The loop ends: whatever is cancelled, the ticket that is served afterwards is not, exactly the
-- cancelled tickets below it have been passed over, and nothing else has changed.
pub skip_canceled-Skips : (g : CardAccessGate) → Skips (init g) (skip_canceled g)
unfolding skip_canceled
skip_canceled-Skips g = skip_loop-Skips (length (init g).canceled) (init g) (omega arith)
