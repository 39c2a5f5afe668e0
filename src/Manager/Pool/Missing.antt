-- ===== src/Manager/Pool/Missing.antt =====
-- scanForChanges of pkg/manager/pool.go: what it finds, and the modems that are gone.
use qmi_go.Base.{ℕ, ◌≡◌, refl, sym, ap, ◌∙◌, arith, List, [], ◌∷◌, ◌++◌}
use qmi_go.Base.{Bool, true, false, ◌&&◌, ◌||◌, not, Option, none, ◌==◌, if◌then◌else◌}
use qmi_go.Base.{if_both, Bool-cases, inl, inr, append_assoc, append-nil, ==→eq}
use qmi_go.Base.Maps.{lookup, insert, lookup-insert, lookup-erase}
use qmi_go.Manager.Pool.{Pool, ModemDevice, is_some}
use qmi_go.Manager.Pool.HotPlug.{by_interface, drop_modem, remove_missing}

-- Whether a modem of that name is among the discovered ones.
unfoldable pub has_device : ℕ → List ModemDevice → Bool
has_device name [] = false
has_device name (device ∷ rest) = device.net_interface == name || has_device name rest

-- The managers of the names that were not found.
unfoldable pub missing : List (ℕ × ModemDevice) → List (ℕ × ℕ) → List ℕ
missing found [] = []
missing found ((name, mgr) ∷ rest) =
    let more = missing found rest in if is_some (lookup name found) then more else mgr ∷ more

by_interface-has :
    (name : ℕ) (devices : List ModemDevice) (m : List (ℕ × ModemDevice))
    → is_some (lookup name (by_interface devices m))
      ≡ (has_device name devices || is_some (lookup name m))
unfolding by_interface has_device is_some
by_interface-has name [] m = refl
by_interface-has name (device ∷ rest) m =
    by_interface-has name rest (insert device.net_interface device m)
    ∙ ap (λ (o : Option ModemDevice). has_device name rest || is_some o)
        (lookup-insert device.net_interface name device m)
    ∙ ground arith

pub remove_missing-lookup :
    (name : ℕ) (found : List (ℕ × ModemDevice)) (l : List (ℕ × ℕ)) (p : Pool)
    → lookup name (remove_missing found l p).modems ≡ (
        if is_some (lookup name l) && not (is_some (lookup name found))
        then none
        else lookup name p.modems)
unfolding remove_missing drop_modem is_some lookup
remove_missing-lookup name found [] p = refl
remove_missing-lookup name found ((other, mgr) ∷ rest) p =
    let same_found : (other == name) ≡ true
        → is_some (lookup other found) ≡ is_some (lookup name found) =
      λ same. ap (λ (n : ℕ). is_some (lookup n found)) (==→eq other name same) in
    let dropped = lookup-erase other name p.modems in
    elim (Bool-cases (is_some (lookup other found))) [
      | inl kept ↦ elim (Bool-cases (other == name)) [
        | inl same ↦
            rw (kept, remove_missing)
              (ground (arith, remove_missing-lookup name found rest p, kept, same, same_found same))
        | inr apart ↦
            rw (kept, remove_missing)
              (ground (arith, remove_missing-lookup name found rest p, apart))
      ]
      | inr gone ↦ elim (Bool-cases (other == name)) [
        | inl same ↦
            rw (gone, remove_missing)
              (ground (
                arith,
                remove_missing-lookup name found rest (drop_modem p other mgr),
                dropped,
                gone,
                same,
                same_found same,
              ))
        | inr apart ↦
            rw (gone, remove_missing)
              (ground (
                arith,
                remove_missing-lookup name found rest (drop_modem p other mgr),
                dropped,
                apart,
              ))
      ]
    ]

pub remove_missing-stopped :
    (found : List (ℕ × ModemDevice)) (l : List (ℕ × ℕ)) (p : Pool)
    → (remove_missing found l p).stopped ≡ p.stopped ++ missing found l
unfolding remove_missing drop_modem missing
remove_missing-stopped found [] p = sym (append-nil p.stopped)
remove_missing-stopped found ((name, mgr) ∷ rest) p =
    elim (Bool-cases (is_some (lookup name found))) [
      | inl kept ↦ rw (kept, remove_missing, missing) (remove_missing-stopped found rest p)
      | inr gone ↦
          rw (gone, remove_missing, missing)
            (remove_missing-stopped found rest (drop_modem p name mgr)
              ∙ append_assoc p.stopped (mgr ∷ []) (missing found rest))
    ]

pub remove_missing-next :
    (found : List (ℕ × ModemDevice)) (l : List (ℕ × ℕ)) (p : Pool)
    → (remove_missing found l p).next_manager ≡ p.next_manager
unfolding remove_missing drop_modem
remove_missing-next found [] p = refl
remove_missing-next found ((name, mgr) ∷ rest) p =
    if_both (λ (q : Pool). (remove_missing found rest q).next_manager ≡ p.next_manager)
      (is_some (lookup name found)) (remove_missing-next found rest p)
      (remove_missing-next found rest (drop_modem p name mgr))

pub discovered-has :
    (name : ℕ) (devices : List ModemDevice)
    → is_some (lookup name (by_interface devices [])) ≡ has_device name devices
unfolding is_some lookup
discovered-has name devices = by_interface-has name devices [] ∙ ground arith
