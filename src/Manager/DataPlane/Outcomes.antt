-- ===== src/Manager/DataPlane/Outcomes.antt =====
-- How the opening of a PDN ends.
use qmi_go.Base.{
  ℕ, ◌+◌, ◌≤◌, ◌≡◌, refl, ap, ◌∙◌, arith, List, [], ◌∷◌, Bool, true, false, ◌||◌, not, none, some,
}
use qmi_go.Base.{◌==◌, if_both, if_split}
use qmi_go.Manager.DataPlane.{
  DataPlane, mem, insert, remove, uses_mux, OpenEnv, undo_open, Opened, open_started, open_leased,
  open_with_mux, open_numbered, open_pdn, is_qmap,
}

pub mem-insert : (x y : ℕ) (ys : List ℕ) → mem x ys ≡ true → mem x (insert y ys) ≡ true
unfolding insert mem
mem-insert x y ys h = if_both (λ (zs : List ℕ). mem x zs ≡ true) (mem y ys) h (ground (arith, h))

pub mem-insert_self : (x : ℕ) (ys : List ℕ) → mem x (insert x ys) ≡ true
unfolding insert mem
mem-insert_self x ys =
    if_split (λ (zs : List ℕ). mem x zs ≡ true) (mem x ys) (λ h. h) (λ _. ground arith)

mem-insert_other : (x y : ℕ) (ys : List ℕ) → (x == y) ≡ false → mem x (insert y ys) ≡ mem x ys
unfolding insert mem
mem-insert_other x y ys h =
    if_both (λ (zs : List ℕ). mem x zs ≡ mem x ys) (mem y ys) refl (ground (arith, h))

pub mem-remove : (x y : ℕ) (ys : List ℕ) → (x == y) ≡ false → mem x (remove y ys) ≡ mem x ys
unfolding remove mem
mem-remove x y [] h = refl
mem-remove x y (z ∷ ys) h =
    let more = mem-remove x y ys h in
    if_split (λ (zs : List ℕ). mem x zs ≡ mem x (z ∷ ys)) (y == z) (λ e. ground (arith, more, h, e))
      (λ _. ap (λ (b : Bool). (x == z) || b) more)

remove-absent : (x : ℕ) (ys : List ℕ) → mem x ys ≡ false → remove x ys ≡ ys
unfolding remove mem
remove-absent x [] h = refl
remove-absent x (y ∷ ys) h =
    if_split (λ (zs : List ℕ). zs ≡ y ∷ ys) (x == y) (λ e. absurd (ground (arith, e, h)))
      (λ _. ap (λ (zs : List ℕ). y ∷ zs) (remove-absent x ys (ground (arith, h))))

-- A number that was put in front comes out again.
remove-first : (x : ℕ) (ys : List ℕ) → mem x ys ≡ false → remove x (x ∷ ys) ≡ ys
unfolding remove
remove-first x ys h =
    if_split (λ (zs : List ℕ). zs ≡ ys) (x == x) (λ _. remove-absent x ys h)
      (λ n. absurd (ground (arith, n)))

-- What an opening that fails leaves: everything as it was, but that the mux may be gone and a number
-- has been given out.
pub record Undone (d : DataPlane) (mux : ℕ) (n : DataPlane) : Type 0 where
  pub snapshot : n.snapshot ≡ d.snapshot
  pub master : n.has_master ≡ d.has_master
  pub sessions : n.sessions ≡ d.sessions
  pub leases : n.leases ≡ d.leases
  pub calls : n.calls ≡ d.calls
  pub muxes : (x : ℕ) → (x == mux) ≡ false → mem x n.muxes ≡ mem x d.muxes
  pub numbers : d.next_session_id ≤ n.next_session_id

-- And one that succeeds: the session in front, which holds a client and a call, and its mux.
pub record Added (d : DataPlane) (mux handle : ℕ) (n : DataPlane) : Type 0 where
  pub snapshot : n.snapshot ≡ d.snapshot
  pub number : n.next_session_id ≡ d.next_session_id + 1
  pub sessions :
      n.sessions
      ≡ record {
        id = d.next_session_id + 1;
        generation = d.snapshot.generation;
        mux = mux;
        handle = handle;
        is_closing = false;
        is_owned = false;
        is_released = false;
        is_detached = false;
      }
        ∷ d.sessions
  pub leases : n.leases ≡ (d.next_session_id + 1) ∷ d.leases
  pub calls : n.calls ≡ (d.next_session_id + 1) ∷ d.calls
  pub muxes : n.muxes ≡ insert mux d.muxes

abbrev pub Opening : DataPlane → ℕ → ℕ → Opened → Type 0
Opening d mux handle (n, some e) = Undone d mux n
Opening d mux handle (n, none) = Added d mux handle n

-- The new number is on no client and no call.
pub record IsFresh (d : DataPlane) : Type 0 where
  pub unleased : mem (d.next_session_id + 1) d.leases ≡ false
  pub uncalled : mem (d.next_session_id + 1) d.calls ≡ false

module _ (d : DataPlane) (mux : ℕ) (env : OpenEnv) (f : IsFresh d) where
  abbrev pub new_id : ℕ
  new_id = d.next_session_id + 1

  abbrev pub with_mux : DataPlane
  with_mux = record d { next_session_id = new_id; muxes = insert mux d.muxes }

  abbrev pub with_lease : DataPlane
  with_lease = record with_mux { leases = new_id ∷ d.leases }

  abbrev pub with_call : DataPlane
  with_call = record with_lease { calls = new_id ∷ d.calls }

  other_muxes :
      (x : ℕ) → (x == mux) ≡ false → mem x (remove mux (insert mux d.muxes)) ≡ mem x d.muxes
  other_muxes x h = mem-remove x mux (insert mux d.muxes) h ∙ mem-insert_other x mux d.muxes h

  call-Undone : Undone d mux (undo_open with_call new_id mux true true)
  call-Undone = record {
    snapshot = refl;
    master = refl;
    sessions = refl;
    leases = remove-first new_id d.leases f.unleased;
    calls = remove-first new_id d.calls f.uncalled;
    muxes = other_muxes;
    numbers = omega arith;
  }

  lease-Undone : Undone d mux (undo_open with_lease new_id mux true false)
  lease-Undone = record {
    snapshot = refl;
    master = refl;
    sessions = refl;
    leases = remove-first new_id d.leases f.unleased;
    calls = refl;
    muxes = other_muxes;
    numbers = omega arith;
  }

  open_started-Opening : Opening d mux env.handle (open_started with_call new_id mux env)
  unfolding open_started
  open_started-Opening = if_both (Opening d mux env.handle) (not env.has_settings) call-Undone (
      if_both (Opening d mux env.handle) (not env.isolated) call-Undone (
        if_both (Opening d mux env.handle) (not env.interface_up) call-Undone (record {
          snapshot = refl;
          number = refl;
          sessions = refl;
          leases = refl;
          calls = refl;
          muxes = refl;
        })))

  pub open_with_mux-Opening : Opening d mux env.handle (open_with_mux with_mux new_id mux env)
  unfolding open_with_mux open_leased
  open_with_mux-Opening =
      if_both (Opening d mux env.handle) (not env.leased)
        (record {
          snapshot = refl;
          master = refl;
          sessions = refl;
          leases = refl;
          calls = refl;
          muxes = other_muxes;
          numbers = omega arith;
        })
        (if_both (Opening d mux env.handle) (not env.endpoint_found) lease-Undone (
          if_both (Opening d mux env.handle) (not env.bound) lease-Undone (
            if_both (Opening d mux env.handle) (not env.started) lease-Undone
              open_started-Opening)))

-- A refusal has done nothing.
refused-Undone : (d : DataPlane) (mux : ℕ) → Undone d mux d
refused-Undone d mux = record {
  snapshot = refl;
  master = refl;
  sessions = refl;
  leases = refl;
  calls = refl;
  muxes = λ x h. refl;
  numbers = omega arith;
}

-- And one after the number has only given that out.
pub numbered-Undone :
    (d : DataPlane) (mux : ℕ) → Undone d mux (record d { next_session_id = d.next_session_id + 1 })
numbered-Undone d mux = record {
  snapshot = refl;
  master = refl;
  sessions = refl;
  leases = refl;
  calls = refl;
  muxes = λ x h. refl;
  numbers = omega arith;
}

-- An opening that fails, at whatever step, gives back the client and the call that it had, and leaves
-- the topology, the sessions and every other mux as they were; one that succeeds adds exactly one
-- session, which holds one client, one call with the handle that the modem gave, and its mux.
pub open_pdn-Opening :
    (d : DataPlane) (mux : ℕ) (env : OpenEnv)
    → IsFresh d
    → Opening d mux env.handle (open_pdn d mux env)
unfolding open_pdn open_numbered
open_pdn-Opening d mux env f =
    let P = Opening d mux env.handle in
    let no = refused-Undone d mux in
    let late = numbered-Undone d mux in
    if_both P env.is_stopping no (
      if_both P (d.snapshot.generation == 0 || not (is_qmap d.snapshot.mode)) no (
        if_both P (mux == 0 || mux == d.snapshot.default_mux) no (
          if_both P (uses_mux mux d.sessions) no (
            if_both P (not env.has_client) late (
              if_both P (not d.has_master) late (
                if_both P (not env.master_up) late
                  (if_both P (not env.mux_added) late (open_with_mux-Opening d mux env f))))))))
