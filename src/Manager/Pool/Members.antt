-- ===== src/Manager/Pool/Members.antt =====
-- The managers of a pool of pkg/manager/pool.go, in whatever order a loop over the map meets them.
use qmi_go.Base.{ℕ, ◌≡◌, refl, sym, ap, ◌∙◌, arith, List, [], ◌∷◌, Bool, true, false, ◌||◌, ◌==◌}
use qmi_go.Base.{All, Bool-cases, inl, inr, ==→eq}
use qmi_go.Manager.Pool.{Pool, connected_managers}

unfoldable pub has_manager : ℕ → List ℕ → Bool
has_manager mgr [] = false
has_manager mgr (other ∷ rest) = other == mgr || has_manager mgr rest

abbrev pub managers_of : List (ℕ × ℕ) → List ℕ
managers_of [] = []
managers_of ((name, mgr) ∷ rest) = mgr ∷ managers_of rest

unfoldable pub any_connected : (ℕ → Bool) → List ℕ → Bool
any_connected is_connected [] = false
any_connected is_connected (mgr ∷ rest) = is_connected mgr || any_connected is_connected rest

-- An order in which a loop meets the managers of the pool.
pub record IsOrder (p : Pool) (order : List ℕ) : Type 0 where
  pub of_pool : All (λ mgr. has_manager mgr (managers_of p.modems) ≡ true) order
  pub complete : All (λ mgr. has_manager mgr order ≡ true) (managers_of p.modems)

pub any-contained :
    (is_connected : ℕ → Bool) (mgr : ℕ) (l : List ℕ)
    → has_manager mgr l ≡ true
    → is_connected mgr ≡ true
    → any_connected is_connected l ≡ true
unfolding has_manager any_connected
any-contained is_connected mgr [] within on = within
any-contained is_connected mgr (other ∷ rest) within on = elim (Bool-cases (other == mgr)) [
  | inl same ↦ rw (ap is_connected (==→eq other mgr same) ∙ on) refl
  | inr apart ↦
      let more = any-contained is_connected mgr rest in ground (arith, more, within, on, apart)
]

pub any-sublist :
    (is_connected : ℕ → Bool) (l whole : List ℕ)
    → All (λ mgr. has_manager mgr whole ≡ true) l
    → any_connected is_connected l ≡ true
    → any_connected is_connected whole ≡ true
unfolding any_connected
any-sublist is_connected [] whole h on = absurd (ground arith)
any-sublist is_connected (mgr ∷ rest) whole h on = elim (Bool-cases (is_connected mgr)) [
  | inl here ↦ any-contained is_connected mgr whole h.0 here
  | inr off ↦ any-sublist is_connected rest whole h.1 (sym (rw off refl) ∙ on)
]

pub any-IsOrder :
    (is_connected : ℕ → Bool) (p : Pool) (order : List ℕ)
    → IsOrder p order
    → any_connected is_connected order ≡ any_connected is_connected (managers_of p.modems)
any-IsOrder is_connected p order h =
    let pool = managers_of p.modems in
    elim (Bool-cases (any_connected is_connected order)) [
      | inl on ↦ on ∙ sym (any-sublist is_connected order pool h.of_pool on)
      | inr off ↦ elim (Bool-cases (any_connected is_connected pool)) [
        | inl on ↦ any-sublist is_connected pool order h.complete on ∙ sym on
        | inr none_on ↦ off ∙ sym none_on
      ]
    ]

abbrev pub is_filled : List ℕ → Bool
is_filled [] = false
is_filled (mgr ∷ rest) = true

pub any-connected_managers :
    (is_connected : ℕ → Bool) (l : List ℕ)
    → any_connected is_connected l ≡ is_filled (connected_managers is_connected l)
unfolding any_connected connected_managers
any-connected_managers is_connected [] = refl
any-connected_managers is_connected (mgr ∷ rest) = elim (Bool-cases (is_connected mgr)) [
  | inl on ↦ rw on refl
  | inr off ↦ rw off (any-connected_managers is_connected rest)
]

-- Where no manager of a list is connected, neither is one of its members.
pub none-contained :
    (is_connected : ℕ → Bool) (mgr : ℕ) (l : List ℕ)
    → any_connected is_connected l ≡ false
    → has_manager mgr l ≡ true
    → is_connected mgr ≡ false
none-contained is_connected mgr l none_on within = elim (Bool-cases (is_connected mgr)) [
  | inl on ↦ absurd (ground (arith, any-contained is_connected mgr l within on, none_on))
  | inr off ↦ off
]
