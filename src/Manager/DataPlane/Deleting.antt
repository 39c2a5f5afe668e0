-- ===== src/Manager/DataPlane/Deleting.antt =====
-- The sessions when a closed one is deleted.
use qmi_go.Base.{ℕ, ◌≡◌, refl, ap, ◌∙◌, subst, arith, List, [], ◌∷◌, true, false, some}
use qmi_go.Base.{◌==◌, if◌then◌else◌, if_both, if_split, inl, inr}
use qmi_go.Manager.DataPlane.{Session, Snapshot, uses_mux}
use qmi_go.Manager.DataPlane.Close.{delete_session, find_session}
use qmi_go.Manager.DataPlane.Invariant.{
  live, uses_id, all_upto, is_separate, all_carried, has_handles,
}
use qmi_go.Manager.DataPlane.Closing.{found-cases}

delete-absent : (id : ℕ) (ss : List Session) → uses_id id ss ≡ false → delete_session id ss ≡ ss
unfolding delete_session uses_id
delete-absent id [] h = refl
delete-absent id (s ∷ ss) h =
    if_split (λ (zs : List Session). zs ≡ s ∷ ss) (s.id == id) (λ e. absurd (ground (arith, e, h)))
      (λ _. ap (λ (zs : List Session). s ∷ zs) (delete-absent id ss (ground (arith, h))))

same-id :
    (x y : ℕ) (ss : List Session) → (x == y) ≡ true → uses_id x ss ≡ false → uses_id y ss ≡ false
same-id x y ss e h =
    let k : x ≡ y = ground (arith, e) in subst (λ (z : ℕ). uses_id z ss ≡ false) k h

pub live-delete_session :
    (id : ℕ) (s : Session) (ss : List Session)
    → find_session id ss ≡ some s
    → s.is_released ≡ true
    → is_separate ss ≡ true
    → live (delete_session id ss) ≡ live ss
unfolding live delete_session is_separate
live-delete_session id s [] h c p = refl
live-delete_session id s (t ∷ ss) h c p =
    let P = λ (zs : List Session). live zs ≡ live (t ∷ ss) in
    elim (found-cases id s t ss h) [
      | inl f ↦
          (let shut : t.is_released ≡ true = ap (λ (u : Session). u.is_released) f.1 ∙ c in
            let gone = delete-absent id ss (same-id t.id id ss f.0 (ground (arith, p))) in
            if_split P (t.id == id)
              (λ _.
                ap live gone
                ∙ if_split (λ (zs : List ℕ). live ss ≡ zs) t.is_released (λ _. refl)
                    (λ on. absurd (ground (arith, on, shut))))
              (λ n. absurd (ground (arith, n, f.0))))
      | inr f ↦
          (let rest = live-delete_session id s ss f.1 c (ground (arith, p)) in
            if_split P (t.id == id) (λ e. absurd (ground (arith, e, f.0)))
              (λ _. ap (λ (ids : List ℕ). if t.is_released then ids else t.id ∷ ids) rest))
    ]

uses_mux-delete_session :
    (x id : ℕ) (ss : List Session)
    → uses_mux x ss ≡ false
    → uses_mux x (delete_session id ss) ≡ false
unfolding uses_mux delete_session
uses_mux-delete_session x id [] h = refl
uses_mux-delete_session x id (s ∷ ss) h =
    let rest = uses_mux-delete_session x id ss (ground (arith, h)) in
    if_both (λ (zs : List Session). uses_mux x zs ≡ false) (s.id == id) rest
      (ground (arith, rest, h))

uses_id-delete_session :
    (x id : ℕ) (ss : List Session) → uses_id x ss ≡ false → uses_id x (delete_session id ss) ≡ false
unfolding uses_id delete_session
uses_id-delete_session x id [] h = refl
uses_id-delete_session x id (s ∷ ss) h =
    let rest = uses_id-delete_session x id ss (ground (arith, h)) in
    if_both (λ (zs : List Session). uses_id x zs ≡ false) (s.id == id) rest
      (ground (arith, rest, h))

pub all_upto-delete_session :
    (n id : ℕ) (ss : List Session) → all_upto n ss ≡ true → all_upto n (delete_session id ss) ≡ true
unfolding all_upto delete_session
all_upto-delete_session n id [] h = refl
all_upto-delete_session n id (s ∷ ss) h =
    let rest = all_upto-delete_session n id ss (ground (arith, h)) in
    if_both (λ (zs : List Session). all_upto n zs ≡ true) (s.id == id) rest
      (ground (arith, rest, h))

pub is_separate-delete_session :
    (id : ℕ) (ss : List Session) → is_separate ss ≡ true → is_separate (delete_session id ss) ≡ true
unfolding is_separate delete_session
is_separate-delete_session id [] h = refl
is_separate-delete_session id (s ∷ ss) h =
    let rest = is_separate-delete_session id ss (ground (arith, h)) in
    let m = uses_mux-delete_session s.mux id ss (ground (arith, h)) in
    let i = uses_id-delete_session s.id id ss (ground (arith, h)) in
    if_both (λ (zs : List Session). is_separate zs ≡ true) (s.id == id) rest
      (ground (arith, rest, m, i))

pub all_carried-delete_session :
    (t : Snapshot) (ms : List ℕ) (id : ℕ) (ss : List Session)
    → all_carried t ms ss ≡ true
    → all_carried t ms (delete_session id ss) ≡ true
unfolding all_carried delete_session
all_carried-delete_session t ms id [] h = refl
all_carried-delete_session t ms id (s ∷ ss) h =
    let rest = all_carried-delete_session t ms id ss (ground (arith, h)) in
    if_both (λ (zs : List Session). all_carried t ms zs ≡ true) (s.id == id) rest
      (ground (arith, rest, h))

pub has_handles-delete_session :
    (id : ℕ) (ss : List Session) → has_handles ss ≡ true → has_handles (delete_session id ss) ≡ true
unfolding has_handles delete_session
has_handles-delete_session id [] h = refl
has_handles-delete_session id (s ∷ ss) h =
    let rest = has_handles-delete_session id ss (ground (arith, h)) in
    if_both (λ (zs : List Session). has_handles zs ≡ true) (s.id == id) rest
      (ground (arith, rest, h))
