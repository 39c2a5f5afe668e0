-- ===== src/Manager/DataPlane/Closing.antt =====
-- The sessions while one of them goes through the steps of its Close.
use qmi_go.Base.{
  ℕ, ◌≡◌, refl, ap, ◌∙◌, sym, subst, arith, List, [], ◌∷◌, Bool, true, false, Option, some,
}
use qmi_go.Base.{◌==◌, if◌then◌else◌, if_both, if_split, Bool-cases, ◌⊎◌, inl, inr}
use qmi_go.Manager.DataPlane.{Session, Snapshot, remove, uses_mux}
use qmi_go.Manager.DataPlane.Close.{update_session, find_session, released, detached}
use qmi_go.Manager.DataPlane.Outcomes.{mem-remove}
use qmi_go.Manager.DataPlane.Invariant.{
  live, uses_id, has_handles, all_upto, is_separate, is_carried, all_carried, all_carried-muxes,
}

-- One session of a list, of another number than the one that goes.
keep-id :
    (b : Bool) (id x : ℕ) (marked ids : List ℕ)
    → (x == id) ≡ false
    → marked ≡ remove id ids
    → (if b then marked else x ∷ marked) ≡ remove id (if b then ids else x ∷ ids)
unfolding remove
keep-id true id x marked ids n e = e
keep-id false id x marked ids n e =
    if_split (λ (zs : List ℕ). x ∷ marked ≡ zs) (id == x) (λ y. absurd (ground (arith, y, n)))
      (λ _. ap (λ (zs : List ℕ). x ∷ zs) e)

-- And one of that number.
drop-id :
    (b : Bool) (id x : ℕ) (marked ids : List ℕ)
    → (x == id) ≡ true
    → marked ≡ remove id ids
    → marked ≡ remove id (if b then ids else x ∷ ids)
unfolding remove
drop-id true id x marked ids e more = more
drop-id false id x marked ids e more =
    if_split (λ (zs : List ℕ). marked ≡ zs) (id == x) (λ _. more)
      (λ n. absurd (ground (arith, e, n)))

-- What a step of a Close leaves as it is in a session.
pub record IsKept (f : Session → Session) : Type 0 where
  pub id : (s : Session) → (f s).id ≡ s.id
  pub mux : (s : Session) → (f s).mux ≡ s.mux
  pub handle : (s : Session) → (f s).handle ≡ s.handle

pub live-update_session :
    (f : Session → Session) (id : ℕ) (ss : List Session)
    → IsKept f
    → ((s : Session) → (f s).is_released ≡ s.is_released)
    → live (update_session id f ss) ≡ live ss
unfolding live update_session
live-update_session f id [] k r = refl
live-update_session f id (s ∷ ss) k r =
    let more = live-update_session f id ss k r in
    if_both (λ (t : Session). live (t ∷ update_session id f ss) ≡ live (s ∷ ss)) (s.id == id)
      (rw (r s, k.id s, more) refl) (rw more refl)

pub live-released :
    (id : ℕ) (ss : List Session) → live (update_session id released ss) ≡ remove id (live ss)
unfolding live update_session remove
live-released id [] = refl
live-released id (s ∷ ss) =
    let more = live-released id ss in
    let rest = live (update_session id released ss) in
    if_split (λ (t : Session). live (t ∷ update_session id released ss) ≡ remove id (live (s ∷ ss)))
      (s.id == id) (λ e. drop-id s.is_released id s.id rest (live ss) e more)
      (λ n. keep-id s.is_released id s.id rest (live ss) n more)

pub uses_mux-update_session :
    (f : Session → Session) (x id : ℕ) (ss : List Session)
    → IsKept f
    → uses_mux x (update_session id f ss) ≡ uses_mux x ss
unfolding uses_mux update_session
uses_mux-update_session f x id [] k = refl
uses_mux-update_session f x id (s ∷ ss) k =
    let more = uses_mux-update_session f x id ss k in
    if_both (λ (t : Session). uses_mux x (t ∷ update_session id f ss) ≡ uses_mux x (s ∷ ss))
      (s.id == id) (rw (k.mux s, more) refl) (rw more refl)

uses_id-update_session :
    (f : Session → Session) (x id : ℕ) (ss : List Session)
    → IsKept f
    → uses_id x (update_session id f ss) ≡ uses_id x ss
unfolding uses_id update_session
uses_id-update_session f x id [] k = refl
uses_id-update_session f x id (s ∷ ss) k =
    let more = uses_id-update_session f x id ss k in
    if_both (λ (t : Session). uses_id x (t ∷ update_session id f ss) ≡ uses_id x (s ∷ ss))
      (s.id == id) (rw (k.id s, more) refl) (rw more refl)

pub all_upto-update_session :
    (f : Session → Session) (n id : ℕ) (ss : List Session)
    → IsKept f
    → all_upto n (update_session id f ss) ≡ all_upto n ss
unfolding all_upto update_session
all_upto-update_session f n id [] k = refl
all_upto-update_session f n id (s ∷ ss) k =
    let more = all_upto-update_session f n id ss k in
    if_both (λ (t : Session). all_upto n (t ∷ update_session id f ss) ≡ all_upto n (s ∷ ss))
      (s.id == id) (rw (k.id s, more) refl) (rw more refl)

pub has_handles-update_session :
    (f : Session → Session) (id : ℕ) (ss : List Session)
    → IsKept f
    → has_handles (update_session id f ss) ≡ has_handles ss
unfolding has_handles update_session
has_handles-update_session f id [] k = refl
has_handles-update_session f id (s ∷ ss) k =
    let more = has_handles-update_session f id ss k in
    if_both (λ (t : Session). has_handles (t ∷ update_session id f ss) ≡ has_handles (s ∷ ss))
      (s.id == id) (rw (k.handle s, more) refl) (rw more refl)

pub is_separate-update_session :
    (f : Session → Session) (id : ℕ) (ss : List Session)
    → IsKept f
    → is_separate (update_session id f ss) ≡ is_separate ss
unfolding is_separate update_session
is_separate-update_session f id [] k = refl
is_separate-update_session f id (s ∷ ss) k =
    let more = is_separate-update_session f id ss k in
    let m = uses_mux-update_session f s.mux id ss k in
    let i = uses_id-update_session f s.id id ss k in
    if_both (λ (t : Session). is_separate (t ∷ update_session id f ss) ≡ is_separate (s ∷ ss))
      (s.id == id) (rw (k.mux s, k.id s, m, i, more) refl) (rw (m, i, more) refl)

-- A step that carries each session carries them all.
pub all_carried-update_session :
    (f : Session → Session) (t : Snapshot) (ms : List ℕ) (id : ℕ) (ss : List Session)
    → ((s : Session) → is_carried t ms s ≡ true → is_carried t ms (f s) ≡ true)
    → all_carried t ms ss ≡ true
    → all_carried t ms (update_session id f ss) ≡ true
unfolding all_carried update_session
all_carried-update_session f t ms id [] c a = refl
all_carried-update_session f t ms id (s ∷ ss) c a =
    let more = all_carried-update_session f t ms id ss c (ground (arith, a)) in
    let this : is_carried t ms s ≡ true = ground (arith, a) in
    if_both (λ (u : Session). all_carried t ms (u ∷ update_session id f ss) ≡ true) (s.id == id)
      (rw (c s this, more) refl) (rw (this, more) refl)

pub detached-IsKept : IsKept detached
detached-IsKept = record { id = λ s. refl; mux = λ s. refl; handle = λ s. refl }

-- The session that is found is the first, or one further on.
pub found-cases :
    (id : ℕ) (s t : Session) (ss : List Session)
    → find_session id (t ∷ ss) ≡ some s
    → (((t.id == id) ≡ true) × (t ≡ s)) ⊎ (((t.id == id) ≡ false) × (find_session id ss ≡ some s))
unfolding find_session
found-cases id s t ss =
    if_split
      (λ (r : Option Session).
        r ≡ some s
        → (((t.id == id) ≡ true) × (t ≡ s))
          ⊎ (((t.id == id) ≡ false) × (find_session id ss ≡ some s)))
      (t.id == id) (λ e h. inl (e, cc h)) (λ n h. inr (n, h))

-- The mux of a found session is in use.
found-uses_mux :
    (id : ℕ) (s : Session) (ss : List Session)
    → find_session id ss ≡ some s
    → uses_mux s.mux ss ≡ true
unfolding find_session uses_mux
found-uses_mux id s [] h = absurd (cc h)
found-uses_mux id s (t ∷ ss) h = elim (found-cases id s t ss h) [
  | inl c ↦ (let m = ap (λ (u : Session). u.mux) c.1 in ground (arith, m))
  | inr c ↦ (let m = found-uses_mux id s ss c.1 in ground (arith, m))
]

-- A mux in use is not one that is not.
pub used-apart :
    (x y : ℕ) (ss : List Session) → uses_mux x ss ≡ true → uses_mux y ss ≡ false → (x == y) ≡ false
used-apart x y ss used free = elim (Bool-cases (x == y)) [
  | inl e ↦
      (let k : x ≡ y = ground (arith, e) in
        let u = subst (λ (z : ℕ). uses_mux z ss ≡ true) k used in absurd (ground (arith, u, free)))
  | inr n ↦ n
]

detached-carried :
    (t : Snapshot) (ms : List ℕ) (id mux : ℕ) (ss : List Session)
    → uses_mux mux ss ≡ false
    → all_carried t ms ss ≡ true
    → all_carried t (remove mux ms) (update_session id detached ss) ≡ true
unfolding is_carried
detached-carried t ms id mux ss free a =
    all_carried-muxes t ms (remove mux ms) (update_session id detached ss)
      (λ x u m.
        mem-remove x mux ms (
          used-apart x mux ss (sym (uses_mux-update_session detached x id ss detached-IsKept) ∙ u)
            free)
        ∙ m)
      (all_carried-update_session detached t ms id ss (λ s h. h) a)

-- The interface of a session that is being closed may go.
pub all_carried-detached :
    (t : Snapshot) (ms : List ℕ) (id : ℕ) (s : Session) (ss : List Session)
    → find_session id ss ≡ some s
    → s.is_closing ≡ true
    → is_separate ss ≡ true
    → all_carried t ms ss ≡ true
    → all_carried t (remove s.mux ms) (update_session id detached ss) ≡ true
unfolding find_session is_separate all_carried update_session is_carried
all_carried-detached t ms id s [] h shut p a = refl
all_carried-detached t ms id s (u ∷ ss) h shut p a =
    let P =
      λ (v : Session). all_carried t (remove s.mux ms) (v ∷ update_session id detached ss) ≡ true in
    elim (found-cases id s u ss h) [
      | inl c ↦
          (let free : uses_mux s.mux ss ≡ false =
              subst (λ (k : ℕ). uses_mux k ss ≡ false) (ap (λ (v : Session). v.mux) c.1)
                (ground (arith, p)) in
            let gone : u.is_closing ≡ true = ap (λ (v : Session). v.is_closing) c.1 ∙ shut in
            let rest = detached-carried t ms id s.mux ss free (ground (arith, a)) in
            if_split P (u.id == id) (λ _. ground (arith, rest, gone))
              (λ n. absurd (ground (arith, n, c.0))))
      | inr c ↦
          (let rest =
              all_carried-detached t ms id s ss c.1 shut (ground (arith, p)) (ground (arith, a)) in
            let apart =
              used-apart s.mux u.mux ss (found-uses_mux id s ss c.1) (ground (arith, p)) in
            let kept = mem-remove u.mux s.mux ms (ground (arith, apart)) in
            if_split P (u.id == id) (λ e. absurd (ground (arith, e, c.0)))
              (λ _. ground (arith, rest, a, kept)))
    ]
