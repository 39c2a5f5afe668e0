-- ===== src/Manager/Readiness/Slots.antt =====
-- The three loops over the slots, and the slot that they look for.
use qmi_go.Base.{
  ℕ, ◌+◌, ◌%◌, ◌≡◌, refl, List, [], ◌∷◌, Bool, true, false, ◌&&◌, not, Option, none, some, ◌==◌,
  if◌then◌else◌,
}
use qmi_go.Manager.Readiness.{
  Slot, active_slot_from, physical_slot_from, resolve_active_uim_slot_euicc,
  resolve_active_uim_slot, resolve_active_uim_physical_slot,
}

-- The first slot that is active with a card in it, with its index.
unfoldable pub first_active : ℕ → List Slot → Option (ℕ × Slot)
first_active idx [] = none
first_active idx (s ∷ ss) =
    let more = first_active (idx + 1) ss in
    if s.has_card && s.is_active then some (idx, s) else more

unfoldable pub physical_number : Option (ℕ × Slot) → Option ℕ
physical_number none = none
physical_number (some (idx, s)) = some ((idx + 1) % 256)

-- The slot's own number, or else that of its place.
unfoldable pub logical_number : Option (ℕ × Slot) → Option (ℕ × Bool)
logical_number none = none
logical_number (some (idx, s)) =
    if not (s.logical_slot == 0) then some (s.logical_slot, true) else some ((idx + 1) % 256, false)

unfoldable pub holds_euicc : Option (ℕ × Slot) → Bool
holds_euicc none = false
holds_euicc (some (idx, s)) = s.is_euicc

-- Two tests that both go on, as one; and a function of what it chooses.
scanned :
    {A B : Type 0} (g : A → B) (has active : Bool) (x y : A) (rest : B)
    → rest ≡ g y
    → (if not has then rest else if not active then rest else g x)
      ≡ g (if has && active then x else y)
scanned g true true x y rest e = refl
scanned g true false x y rest e = e
scanned g false active x y rest e = e

active_from-first :
    (idx : ℕ) (ss : List Slot) → active_slot_from idx ss ≡ logical_number (first_active idx ss)
unfolding active_slot_from first_active logical_number
active_from-first idx [] = refl
active_from-first idx (s ∷ ss) =
    scanned logical_number s.has_card s.is_active (some (idx, s)) (first_active (idx + 1) ss)
      (active_slot_from (idx + 1) ss) (active_from-first (idx + 1) ss)

physical_from-first :
    (idx : ℕ) (ss : List Slot) → physical_slot_from idx ss ≡ physical_number (first_active idx ss)
unfolding physical_slot_from first_active physical_number
physical_from-first idx [] = refl
physical_from-first idx (s ∷ ss) =
    scanned physical_number s.has_card s.is_active (some (idx, s)) (first_active (idx + 1) ss)
      (physical_slot_from (idx + 1) ss) (physical_from-first (idx + 1) ss)

euicc-first :
    (idx : ℕ) (ss : List Slot)
    → resolve_active_uim_slot_euicc ss ≡ holds_euicc (first_active idx ss)
unfolding resolve_active_uim_slot_euicc first_active holds_euicc
euicc-first idx [] = refl
euicc-first idx (s ∷ ss) =
    scanned holds_euicc s.has_card s.is_active (some (idx, s)) (first_active (idx + 1) ss)
      (resolve_active_uim_slot_euicc ss) (euicc-first (idx + 1) ss)

-- The three loops are about one slot, the first that is active with a card in it: the number of its
-- place, its own number or else that of its place, and whether it holds an eUICC.
pub resolve-first_active :
    (ss : List Slot)
    → (resolve_active_uim_slot ss ≡ logical_number (first_active 0 ss))
      × (resolve_active_uim_physical_slot ss ≡ physical_number (first_active 0 ss))
      × (resolve_active_uim_slot_euicc ss ≡ holds_euicc (first_active 0 ss))
resolve-first_active ss = (active_from-first 0 ss, physical_from-first 0 ss, euicc-first 0 ss)
