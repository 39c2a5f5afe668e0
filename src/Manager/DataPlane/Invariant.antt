-- ===== src/Manager/DataPlane/Invariant.antt =====
-- What holds of the data plane between two of its steps.
use qmi_go.Base.{ℕ, ◌≤◌, ◌<◌, ◌≡◌, refl, arith, List, [], ◌∷◌, Bool, true, false, ◌&&◌, ◌||◌, not}
use qmi_go.Base.{ltb, leb, ◌==◌, if◌then◌else◌, if_both, Bool-cases, inl, inr}
use qmi_go.Manager.DataPlane.{DataPlane, Session, Snapshot, mem, uses_mux}

-- The numbers of the sessions whose call and client are not given back.
unfoldable pub live : List Session → List ℕ
live [] = []
live (s ∷ ss) = let more = live ss in if s.is_released then more else s.id ∷ more

-- Every session has a handle of its call.
unfoldable pub has_handles : List Session → Bool
has_handles [] = true
has_handles (s ∷ ss) = not (s.handle == 0) && has_handles ss

unfoldable pub uses_id : ℕ → List Session → Bool
uses_id id [] = false
uses_id id (s ∷ ss) = (s.id == id) || uses_id id ss

unfoldable pub all_upto : ℕ → List Session → Bool
all_upto n [] = true
all_upto n (s ∷ ss) = leb s.id n && all_upto n ss

unfoldable pub is_separate : List Session → Bool
is_separate [] = true
is_separate (s ∷ ss) = not (uses_mux s.mux ss) && (not (uses_id s.id ss) && is_separate ss)

-- A session is being closed, or is of an earlier topology, or has its interface on this one, which is
-- not the default's.
unfoldable pub is_carried : Snapshot → List ℕ → Session → Bool
is_carried t muxes s =
    s.is_closing
    || (ltb s.generation t.generation
        || (s.generation == t.generation && (mem s.mux muxes && not (s.mux == t.default_mux))))

unfoldable pub all_carried : Snapshot → List ℕ → List Session → Bool
all_carried t muxes [] = true
all_carried t muxes (s ∷ ss) = is_carried t muxes s && all_carried t muxes ss

-- Clients and calls are exactly those of the sessions that have not given them back; the sessions have
-- their own numbers and muxes; each has its interface.
pub record IsValid (d : DataPlane) : Type 0 where
  pub leased : d.leases ≡ live d.sessions
  pub called : d.calls ≡ live d.sessions
  pub numbered : all_upto d.next_session_id d.sessions ≡ true
  pub separate : is_separate d.sessions ≡ true
  pub carried : all_carried d.snapshot d.muxes d.sessions ≡ true
  pub handled : has_handles d.sessions ≡ true

pub live-fresh :
    (n x : ℕ) (ss : List Session) → n < x → all_upto n ss ≡ true → mem x (live ss) ≡ false
unfolding live all_upto mem
live-fresh n x [] h a = refl
live-fresh n x (s ∷ ss) h a =
    let rest = live-fresh n x ss h (ground (arith, a)) in
    if_both (λ (ids : List ℕ). mem x ids ≡ false) s.is_released rest (ground (arith, rest, a, h))

pub fresh-id : (n x : ℕ) (ss : List Session) → n < x → all_upto n ss ≡ true → uses_id x ss ≡ false
unfolding uses_id all_upto
fresh-id n x [] h a = refl
fresh-id n x (s ∷ ss) h a =
    let rest = fresh-id n x ss h (ground (arith, a)) in ground (arith, rest, a, h)

pub all_upto-le :
    (n k : ℕ) (ss : List Session) → n ≤ k → all_upto n ss ≡ true → all_upto k ss ≡ true
unfolding all_upto
all_upto-le n k [] h a = refl
all_upto-le n k (s ∷ ss) h a =
    let rest = all_upto-le n k ss h (ground (arith, a)) in ground (arith, rest, a, h)

-- More interfaces, of those that are in use, carry as much.
pub all_carried-muxes :
    (t : Snapshot) (ms ns : List ℕ) (ss : List Session)
    → ((x : ℕ) → uses_mux x ss ≡ true → mem x ms ≡ true → mem x ns ≡ true)
    → all_carried t ms ss ≡ true
    → all_carried t ns ss ≡ true
unfolding all_carried uses_mux is_carried
all_carried-muxes t ms ns [] h a = refl
all_carried-muxes t ms ns (s ∷ ss) h a =
    let rest =
      all_carried-muxes t ms ns ss (λ x u m. h x (ground (arith, u)) m) (ground (arith, a)) in
    let this : mem s.mux ms ≡ true → mem s.mux ns ≡ true = h s.mux (ground arith) in
    elim (Bool-cases (mem s.mux ms)) [
      | inl m ↦ ground (arith, rest, a, this m)
      | inr m ↦ ground (arith, rest, a, m)
    ]

-- A later topology leaves every session behind.
pub all_carried-later :
    (t u : Snapshot) (ms ns : List ℕ) (ss : List Session)
    → t.generation < u.generation
    → all_carried t ms ss ≡ true
    → all_carried u ns ss ≡ true
unfolding all_carried is_carried
all_carried-later t u ms ns [] h a = refl
all_carried-later t u ms ns (s ∷ ss) h a =
    let rest = all_carried-later t u ms ns ss h (ground (arith, a)) in ground (arith, rest, a, h)
