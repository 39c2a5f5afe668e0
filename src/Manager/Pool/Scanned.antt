-- ===== src/Manager/Pool/Scanned.antt =====
-- scanForChanges of pkg/manager/pool.go: the pool follows what is discovered.
use qmi_go.Base.{ℕ, ◌≤◌, ◌≡◌, refl, sym, ap, ◌∙◌, arith, List, [], ◌∷◌, ◌++◌}
use qmi_go.Base.{Bool, true, false, ◌&&◌, ◌||◌, not, Option, none, some, ◌==◌, if◌then◌else◌}
use qmi_go.Base.{if_both, if_split, Bool-cases, inl, inr, subst, ==→eq}
use qmi_go.Base.Maps.{lookup, lookup-insert}
use qmi_go.Manager.Pool.{Pool, ModemDevice, is_some, with_new}
use qmi_go.Manager.Pool.HotPlug.{by_interface, remove_missing, plug_in, add_new, scan_for_changes}
use qmi_go.Manager.Pool.Missing.{
  has_device, missing, discovered-has, remove_missing-lookup, remove_missing-stopped,
  remove_missing-next,
}

-- What the loop for new modems leaves as it is.
add_new-stopped :
    (found : List (ℕ × ModemDevice)) (p : Pool) → (add_new found p).stopped ≡ p.stopped
unfolding add_new plug_in with_new
add_new-stopped [] p = refl
add_new-stopped ((name, device) ∷ rest) p =
    if_both (λ (q : Pool). (add_new rest q).stopped ≡ p.stopped) (is_some (lookup name p.modems))
      (add_new-stopped rest p) (add_new-stopped rest (plug_in p name device))

clash : {b : Bool} → b ≡ false → b ≡ true → ⊥
clash off on = ground (arith, off, on)

plug_in-lookup :
    (name other : ℕ) (device : ModemDevice) (p : Pool)
    → lookup name (plug_in p other device).modems
      ≡ (if other == name then some p.next_manager else lookup name p.modems)
unfolding plug_in with_new
plug_in-lookup name other device p = lookup-insert other name p.next_manager p.modems

-- A name that is there is not the one that is plugged in.
plug_in-other :
    (name mgr other : ℕ) (device : ModemDevice) (p : Pool)
    → lookup name p.modems ≡ some mgr
    → is_some (lookup other p.modems) ≡ false
    → lookup name (plug_in p other device).modems ≡ some mgr
unfolding is_some
plug_in-other name mgr other device p h new = elim (Bool-cases (other == name)) [
  | inl same ↦ absurd (
      clash (sym (ap (λ (n : ℕ). is_some (lookup n p.modems)) (==→eq other name same)) ∙ new)
        (ap is_some h))
  | inr apart ↦ plug_in-lookup name other device p ∙ rw apart h
]

add_new-kept :
    (name mgr : ℕ) (found : List (ℕ × ModemDevice)) (p : Pool)
    → lookup name p.modems ≡ some mgr
    → lookup name (add_new found p).modems ≡ some mgr
unfolding add_new
add_new-kept name mgr [] p h = h
add_new-kept name mgr ((other, device) ∷ rest) p h =
    if_split (λ (q : Pool). lookup name (add_new rest q).modems ≡ some mgr)
      (is_some (lookup other p.modems))
      (λ (there : is_some (lookup other p.modems) ≡ true). add_new-kept name mgr rest p h)
      (λ (new : is_some (lookup other p.modems) ≡ false).
        add_new-kept name mgr rest (plug_in p other device)
          (plug_in-other name mgr other device p h new))

-- A modem that is in the pool with a manager made since `bound`.
abbrev pub MadeSince : ℕ → Option ℕ → Type 0
MadeSince bound none = false ≡ true
MadeSince bound (some mgr) = bound ≤ mgr

-- A name that the pool does not have: it comes in with a new manager if it is found.
abbrev pub Plugged : ℕ → Bool → Option ℕ → Type 0
Plugged bound true after = MadeSince bound after
Plugged bound false after = after ≡ none

-- One round of the loop, with the first of the found modems and the rest of them.
found_first :
    (name other : ℕ) (device : ModemDevice) (rest : List (ℕ × ModemDevice))
    → is_some (lookup name ((other, device) ∷ rest)) ≡ (other == name || is_some (lookup name rest))
unfolding is_some lookup
found_first name other device rest = ground arith

made_since :
    (bound mgr : ℕ) (o : Option ℕ) (b : Bool)
    → o ≡ some mgr
    → bound ≤ mgr
    → b ≡ true
    → Plugged bound b o
made_since bound mgr o true e h is_true = subst (MadeSince bound) (sym e) h
made_since bound mgr o false e h is_true = absurd (ground arith)

add_new-Plugged :
    (name bound : ℕ) (found : List (ℕ × ModemDevice)) (p : Pool)
    → lookup name p.modems ≡ none
    → bound ≤ p.next_manager
    → Plugged bound (is_some (lookup name found)) (lookup name (add_new found p).modems)
unfolding add_new plug_in with_new is_some lookup
add_new-Plugged name bound [] p absent h = absent
add_new-Plugged name bound ((other, device) ∷ rest) p absent h =
    let is_found = found_first name other device rest in
    let Goal : Bool → Pool → Type 0 =
      λ b q. Plugged bound b (lookup name (add_new rest q).modems) in
    let q = plug_in p other device in
    subst (λ (b : Bool). Goal b (if is_some (lookup other p.modems) then p else q)) (sym is_found)
      (elim (Bool-cases (other == name)) [
        | inl same ↦
            let new : is_some (lookup other p.modems) ≡ false =
              ap (λ (n : ℕ). is_some (lookup n p.modems)) (==→eq other name same)
              ∙ ap is_some absent in
            let made : lookup name q.modems ≡ some p.next_manager =
              plug_in-lookup name other device p ∙ rw same refl in
            rw new (
              made_since bound p.next_manager (lookup name (add_new rest q).modems)
                (other == name || is_some (lookup name rest))
                (add_new-kept name p.next_manager rest q made) h (rw same refl))
        | inr apart ↦ rw apart (
            if_both (Goal (is_some (lookup name rest))) (is_some (lookup other p.modems))
              (add_new-Plugged name bound rest p absent h)
              (add_new-Plugged name bound rest q
                (plug_in-lookup name other device p ∙ rw apart absent) (omega (arith, h))))
      ])

-- What a scan makes of a name: none where it is not discovered, else the manager that it has, or a new
-- one.
abbrev pub Follows : ℕ → Option ℕ → Bool → Option ℕ → Type 0
Follows bound old false after = after ≡ none
Follows bound none true after = MadeSince bound after
Follows bound (some mgr) true after = after ≡ some mgr

removed-Follows :
    (name : ℕ) (found : List (ℕ × ModemDevice)) (p q : Pool) (old : Option ℕ) (discovered : Bool)
    → lookup name p.modems ≡ old
    → is_some (lookup name found) ≡ discovered
    → lookup name q.modems ≡ (if is_some old && not discovered then none else old)
    → q.next_manager ≡ p.next_manager
    → Follows p.next_manager old discovered (lookup name (add_new found q).modems)
unfolding is_some
removed-Follows name found p q (some mgr) true e d h next = add_new-kept name mgr found q h
removed-Follows name found p q (some mgr) false e d h next =
    subst (λ (b : Bool). Plugged p.next_manager b (lookup name (add_new found q).modems)) d
      (add_new-Plugged name p.next_manager found q h (omega (arith, next)))
removed-Follows name found p q none true e d h next =
    subst (λ (b : Bool). Plugged p.next_manager b (lookup name (add_new found q).modems)) d
      (add_new-Plugged name p.next_manager found q h (omega (arith, next)))
removed-Follows name found p q none false e d h next =
    subst (λ (b : Bool). Plugged p.next_manager b (lookup name (add_new found q).modems)) d
      (add_new-Plugged name p.next_manager found q h (omega (arith, next)))

-- After a scan, a name has a modem in the pool exactly if it was discovered: the manager that it
-- had before, or one made by the scan; and the managers of the names that were not discovered,
-- and no others, have been stopped.
pub scan_for_changes-Follows :
    (p : Pool) (devices : List ModemDevice) (name : ℕ)
    → Follows p.next_manager
        (lookup name p.modems)
        (has_device name devices)
        (lookup name (scan_for_changes (some (some devices)) p).modems)
      × ((scan_for_changes (some (some devices)) p).stopped
          ≡ p.stopped ++ missing (by_interface devices []) p.modems)
unfolding scan_for_changes
scan_for_changes-Follows p devices name =
    let found = by_interface devices [] in
    let q = remove_missing found p.modems p in
    let discovered : is_some (lookup name found) ≡ has_device name devices =
      discovered-has name devices in
    (
      removed-Follows name found p q (lookup name p.modems) (has_device name devices) refl
          discovered
          (remove_missing-lookup name found p.modems p
            ∙ ap
                (λ (b : Bool).
                  if is_some (lookup name p.modems) && not b then none else lookup name p.modems)
                discovered)
          (remove_missing-next found p.modems p),
      add_new-stopped found q ∙ remove_missing-stopped found p.modems p,
    )
