-- ===== src/Manager/DataPlane/Opening.antt =====
-- The opening of a PDN keeps the invariant.
use qmi_go.Base.{ℕ, ◌+◌, ◌≡◌, ap, ◌∙◌, sym, arith, List, ◌∷◌, false, ◌||◌, not, none, some}
use qmi_go.Base.{◌==◌, if_both, if_split}
use qmi_go.Manager.DataPlane.{
  DataPlane, Session, Snapshot, is_qmap, mem, insert, uses_mux, OpenEnv, Opened, open_numbered,
  open_with_mux, open_pdn,
}
use qmi_go.Manager.DataPlane.Outcomes.{
  numbered-Undone, Undone, Added, Opening, IsFresh, open_with_mux-Opening, mem-insert,
  mem-insert_self,
}
use qmi_go.Manager.DataPlane.Invariant.{
  IsValid, live, has_handles, all_upto, is_separate, all_carried, live-fresh, fresh-id, all_upto-le,
  all_carried-muxes, is_carried,
}
use qmi_go.Manager.DataPlane.Closing.{used-apart}

valid-IsFresh : (d : DataPlane) → IsValid d → IsFresh d
valid-IsFresh d v =
    let f =
      live-fresh d.next_session_id (d.next_session_id + 1) d.sessions (omega arith) v.numbered in
    record {
      unleased = ap (λ (ids : List ℕ). mem (d.next_session_id + 1) ids) v.leased ∙ f;
      uncalled = ap (λ (ids : List ℕ). mem (d.next_session_id + 1) ids) v.called ∙ f;
    }

Undone-IsValid :
    (d : DataPlane) (mux : ℕ) (n : DataPlane)
    → uses_mux mux d.sessions ≡ false
    → IsValid d
    → Undone d mux n
    → IsValid n
Undone-IsValid d mux n free v u = record {
  leased = u.leases ∙ v.leased ∙ ap live (sym u.sessions);
  called = u.calls ∙ v.called ∙ ap live (sym u.sessions);
  numbered =
      ap (λ (ss : List Session). all_upto n.next_session_id ss) u.sessions
      ∙ all_upto-le d.next_session_id n.next_session_id d.sessions u.numbers v.numbered;
  separate = ap is_separate u.sessions ∙ v.separate;
  carried =
      ap (λ (ss : List Session). all_carried n.snapshot n.muxes ss) u.sessions
      ∙ ap (λ (t : Snapshot). all_carried t n.muxes d.sessions) u.snapshot
      ∙ all_carried-muxes d.snapshot d.muxes n.muxes d.sessions
          (λ x used m. u.muxes x (used-apart x mux d.sessions used free) ∙ m) v.carried;
  handled = ap has_handles u.sessions ∙ v.handled;
}

Added-IsValid :
    (d : DataPlane) (mux handle : ℕ) (n : DataPlane)
    → uses_mux mux d.sessions ≡ false
    → (d.snapshot.default_mux == mux) ≡ false
    → (handle == 0) ≡ false
    → IsValid d
    → Added d mux handle n
    → IsValid n
unfolding live all_upto is_separate all_carried is_carried has_handles
Added-IsValid d mux handle n free other given v a =
    let new_id = d.next_session_id + 1 in
    let new : Session = record {
      id = new_id;
      generation = d.snapshot.generation;
      mux = mux;
      handle = handle;
      is_closing = false;
      is_owned = false;
      is_released = false;
      is_detached = false;
    } in
    let upto = all_upto-le d.next_session_id new_id d.sessions (omega arith) v.numbered in
    let fresh = fresh-id d.next_session_id new_id d.sessions (omega arith) v.numbered in
    let there = mem-insert_self mux d.muxes in
    let kept =
      all_carried-muxes d.snapshot d.muxes (insert mux d.muxes) d.sessions
        (λ x used m. mem-insert x mux d.muxes m) v.carried in
    record {
      leased = a.leases ∙ ap (λ (ids : List ℕ). new_id ∷ ids) v.leased ∙ ap live (sym a.sessions);
      called = a.calls ∙ ap (λ (ids : List ℕ). new_id ∷ ids) v.called ∙ ap live (sym a.sessions);
      numbered =
          ap (λ (k : ℕ). all_upto k n.sessions) a.number
          ∙ ap (λ (ss : List Session). all_upto new_id ss) a.sessions
          ∙ ground (arith, upto);
      separate = ap is_separate a.sessions ∙ ground (arith, free, fresh, v.separate);
      carried =
          ap (λ (ss : List Session). all_carried n.snapshot n.muxes ss) a.sessions
          ∙ ap (λ (t : Snapshot). all_carried t n.muxes (new ∷ d.sessions)) a.snapshot
          ∙ ap (λ (ms : List ℕ). all_carried d.snapshot ms (new ∷ d.sessions)) a.muxes
          ∙ ground (arith, kept, there, other);
      handled = ap has_handles a.sessions ∙ ground (arith, given, v.handled);
    }

opened-IsValid :
    (d : DataPlane) (mux handle : ℕ) (r : Opened)
    → uses_mux mux d.sessions ≡ false
    → (d.snapshot.default_mux == mux) ≡ false
    → (handle == 0) ≡ false
    → IsValid d
    → Opening d mux handle r
    → IsValid r.0
opened-IsValid d mux handle (n, some e) free other given v u = Undone-IsValid d mux n free v u
opened-IsValid d mux handle (n, none) free other given v a =
    Added-IsValid d mux handle n free other given v a

open_numbered-IsValid :
    (d : DataPlane) (mux : ℕ) (env : OpenEnv)
    → uses_mux mux d.sessions ≡ false
    → (d.snapshot.default_mux == mux) ≡ false
    → (env.handle == 0) ≡ false
    → IsValid d
    → IsValid
        (open_numbered
          (record d { next_session_id = d.next_session_id + 1 })
          (d.next_session_id + 1)
          mux
          env).0
unfolding open_numbered
open_numbered-IsValid d mux env free other given v =
    let P = λ (r : Opened). IsValid r.0 in
    let late =
      Undone-IsValid d mux (record d { next_session_id = d.next_session_id + 1 }) free v
        (numbered-Undone d mux) in
    if_both P (not env.has_client) late (
      if_both P (not d.has_master) late (
        if_both P (not env.master_up) late (
          if_both P (not env.mux_added) late (
            opened-IsValid d mux env.handle
              (open_with_mux
                (record d { next_session_id = d.next_session_id + 1; muxes = insert mux d.muxes })
                (d.next_session_id + 1) mux env)
              free other given v (open_with_mux-Opening d mux env (valid-IsFresh d v))))))

pub open_pdn-IsValid :
    (d : DataPlane) (mux : ℕ) (env : OpenEnv)
    → (env.handle == 0) ≡ false
    → IsValid d
    → IsValid (open_pdn d mux env).0
unfolding open_pdn
open_pdn-IsValid d mux env given v =
    let P = λ (r : Opened). IsValid r.0 in
    if_both P env.is_stopping v (
      if_both P (d.snapshot.generation == 0 || not (is_qmap d.snapshot.mode)) v (
        if_split P (mux == 0 || mux == d.snapshot.default_mux) (λ _. v)
          (λ apart.
            if_split P (uses_mux mux d.sessions) (λ _. v)
              (λ free. open_numbered-IsValid d mux env free (ground (arith, apart)) given v))))
