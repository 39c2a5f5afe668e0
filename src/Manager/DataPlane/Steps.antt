-- ===== src/Manager/DataPlane/Steps.antt =====
-- The runs of the data plane: convergences, openings, and closes with what comes between their steps.
use qmi_go.Base.{
  ℕ, ◌≡◌, refl, ap, ◌∙◌, sym, subst, arith, List, [], ◌∷◌, true, false, ◌&&◌, not, Option, none,
  some,
}
use qmi_go.Base.{◌==◌, if_both, if_split, inl, inr}
use qmi_go.Manager.DataPlane.{
  DataPlane, Session, Spec, native, remove, ConvergeEnv, converge, OpenEnv, open_pdn,
}
use qmi_go.Manager.DataPlane.Close.{
  find_session, update_session, closing, begin_found, begin_close, released, release_now,
  release_found, release_session, detached, detach_now, detach_found, detach_session, end_found,
  end_close,
}
use qmi_go.Manager.DataPlane.Invariant.{
  IsValid, live, has_handles, all_upto, is_separate, all_carried, is_carried,
}
use qmi_go.Manager.DataPlane.Closing.{
  found-cases, IsKept, live-update_session, live-released, all_upto-update_session,
  is_separate-update_session, has_handles-update_session, all_carried-update_session,
  detached-IsKept, all_carried-detached,
}
use qmi_go.Manager.DataPlane.Deleting.{
  live-delete_session, all_upto-delete_session, is_separate-delete_session,
  all_carried-delete_session, has_handles-delete_session,
}
use qmi_go.Manager.DataPlane.Converging.{converge-IsValid}
use qmi_go.Manager.DataPlane.Opening.{open_pdn-IsValid}

found-has_handle :
    (id : ℕ) (s : Session) (ss : List Session)
    → find_session id ss ≡ some s
    → has_handles ss ≡ true
    → (s.handle == 0) ≡ false
unfolding find_session has_handles
found-has_handle id s [] h a = absurd (cc h)
found-has_handle id s (u ∷ ss) h a = elim (found-cases id s u ss h) [
  | inl c ↦ subst (λ (w : Session). (w.handle == 0) ≡ false) c.1 (ground (arith, a))
  | inr c ↦ found-has_handle id s ss c.1 (ground (arith, a))
]

-- A step of a Close that leaves the clients, the calls and the interfaces as they are.
updated-IsValid :
    (d : DataPlane) (id : ℕ) (f : Session → Session)
    → IsKept f
    → ((s : Session) → (f s).is_released ≡ s.is_released)
    → ((s : Session)
        → is_carried d.snapshot d.muxes s ≡ true
        → is_carried d.snapshot d.muxes (f s) ≡ true)
    → IsValid d
    → IsValid (record d { sessions = update_session id f d.sessions })
updated-IsValid d id f k r c v =
    let same = live-update_session f id d.sessions k r in
    record {
      leased = v.leased ∙ sym same;
      called = v.called ∙ sym same;
      numbered = all_upto-update_session f d.next_session_id id d.sessions k ∙ v.numbered;
      separate = is_separate-update_session f id d.sessions k ∙ v.separate;
      carried = all_carried-update_session f d.snapshot d.muxes id d.sessions c v.carried;
      handled = has_handles-update_session f id d.sessions k ∙ v.handled;
    }

begin_found-IsValid :
    (d : DataPlane) (id : ℕ) (r : Option Session) → IsValid d → IsValid (begin_found d id r)
unfolding begin_found is_carried
begin_found-IsValid d id none v = v
begin_found-IsValid d id (some s) v = if_both IsValid s.is_closing v (
    updated-IsValid d id (closing d.snapshot.generation)
      (record { id = λ u. refl; mux = λ u. refl; handle = λ u. refl }) (λ u. refl)
      (λ u h. ground arith) v)

release_now-IsValid :
    (d : DataPlane) (id : ℕ) (s : Session)
    → find_session id d.sessions ≡ some s
    → IsValid d
    → IsValid (release_now d id s)
unfolding is_carried
release_now-IsValid d id s h v =
    let k : IsKept released = record { id = λ u. refl; mux = λ u. refl; handle = λ u. refl } in
    let given = found-has_handle id s d.sessions h v.handled in
    let gone = sym (live-released id d.sessions) in
    record {
      leased = ap (remove id) v.leased ∙ gone;
      called =
          if_split (λ (ids : List ℕ). ids ≡ live (update_session id released d.sessions))
            (not (s.handle == 0)) (λ _. ap (remove id) v.called ∙ gone)
            (λ e. absurd (ground (arith, e, given)));
      numbered = all_upto-update_session released d.next_session_id id d.sessions k ∙ v.numbered;
      separate = is_separate-update_session released id d.sessions k ∙ v.separate;
      carried =
          all_carried-update_session released d.snapshot d.muxes id d.sessions (λ u a. a) v.carried;
      handled = has_handles-update_session released id d.sessions k ∙ v.handled;
    }

release_found-IsValid :
    (d : DataPlane) (id : ℕ) (r : Option Session)
    → find_session id d.sessions ≡ r
    → IsValid d
    → IsValid (release_found d id r)
unfolding release_found
release_found-IsValid d id none h v = v
release_found-IsValid d id (some s) h v =
    if_both IsValid (s.is_closing && not s.is_released) (release_now-IsValid d id s h v) v

detach_now-IsValid :
    (d : DataPlane) (id : ℕ) (s : Session)
    → find_session id d.sessions ≡ some s
    → s.is_closing ≡ true
    → IsValid d
    → IsValid (detach_now d id s)
unfolding is_carried
detach_now-IsValid d id s h shut v =
    let plain = updated-IsValid d id detached detached-IsKept (λ u. refl) (λ u a. a) v in
    record {
      leased = plain.leased;
      called = plain.called;
      numbered = plain.numbered;
      separate = plain.separate;
      carried =
          if_both
            (λ (ms : List ℕ).
              all_carried d.snapshot ms (update_session id detached d.sessions) ≡ true)
            s.is_owned
            (all_carried-detached d.snapshot d.muxes id s d.sessions h shut v.separate v.carried)
            plain.carried;
      handled = plain.handled;
    }

detach_found-IsValid :
    (d : DataPlane) (id : ℕ) (r : Option Session)
    → find_session id d.sessions ≡ r
    → IsValid d
    → IsValid (detach_found d id r)
unfolding detach_found
detach_found-IsValid d id none h v = v
detach_found-IsValid d id (some s) h v =
    if_split IsValid (s.is_closing && (s.is_released && not s.is_detached))
      (λ e. detach_now-IsValid d id s h (ground (arith, e)) v) (λ _. v)

end_found-IsValid :
    (d : DataPlane) (id : ℕ) (r : Option Session)
    → find_session id d.sessions ≡ r
    → IsValid d
    → IsValid (end_found d id r)
unfolding end_found
end_found-IsValid d id none h v = v
end_found-IsValid d id (some s) h v =
    if_split IsValid (s.is_released && s.is_detached)
      (λ over.
        let l = live-delete_session id s d.sessions h (ground (arith, over)) v.separate in
        record {
          leased = v.leased ∙ sym l;
          called = v.called ∙ sym l;
          numbered = all_upto-delete_session d.next_session_id id d.sessions v.numbered;
          separate = is_separate-delete_session id d.sessions v.separate;
          carried = all_carried-delete_session d.snapshot d.muxes id d.sessions v.carried;
          handled = has_handles-delete_session id d.sessions v.handled;
        })
      (λ _. v)

-- What `cleanup` leaves once every session is closed.
abbrev pub cleaned : DataPlane → DataPlane
cleaned d = record d {
  snapshot = record { generation = 0; mode = native; default_mux = 0; is_degraded = false };
  has_master = false;
}

abbrev pub empty_plane : List ℕ → DataPlane
empty_plane muxes = record {
  snapshot = record { generation = 0; mode = native; default_mux = 0; is_degraded = false };
  has_master = false;
  next_session_id = 0;
  sessions = [];
  muxes = muxes;
  leases = [];
  calls = [];
}

pub data Step : DataPlane → DataPlane → Type 0 where
  converges : (d : DataPlane) (spec : Spec) (env : ConvergeEnv) → Step d (converge d spec env).0
  opens :
      (d : DataPlane) (mux : ℕ) (env : OpenEnv)
      → (env.handle == 0) ≡ false
      → Step d (open_pdn d mux env).0
  begins_close : (d : DataPlane) (id : ℕ) → Step d (begin_close d id)
  releases : (d : DataPlane) (id : ℕ) → Step d (release_session d id)
  detaches : (d : DataPlane) (id : ℕ) → Step d (detach_session d id)
  ends_close : (d : DataPlane) (id : ℕ) → Step d (end_close d id)
  cleans : (d : DataPlane) → d.sessions ≡ [] → Step d (cleaned d)

-- What runs reach from a data plane without a topology or a session.
pub data Arrived : DataPlane → Type 0 where
  initial : (muxes : List ℕ) → Arrived (empty_plane muxes)
  stepped : {d e : DataPlane} → Arrived d → Step d e → Arrived e

step-IsValid : {d e : DataPlane} → Step d e → IsValid d → IsValid e
unfolding begin_close release_session detach_session end_close all_carried
step-IsValid (converges d spec env) v = converge-IsValid d spec env v
step-IsValid (opens d mux env given) v = open_pdn-IsValid d mux env given v
step-IsValid (begins_close d id) v = begin_found-IsValid d id (find_session id d.sessions) v
step-IsValid (releases d id) v = release_found-IsValid d id (find_session id d.sessions) refl v
step-IsValid (detaches d id) v = detach_found-IsValid d id (find_session id d.sessions) refl v
step-IsValid (ends_close d id) v = end_found-IsValid d id (find_session id d.sessions) refl v
step-IsValid (cleans d none_left) v = record {
  leased = v.leased;
  called = v.called;
  numbered = v.numbered;
  separate = v.separate;
  carried =
      subst (λ (ss : List Session). all_carried (cleaned d).snapshot d.muxes ss ≡ true)
        (sym none_left) refl;
  handled = v.handled;
}

-- Through any run of convergences, openings that succeed or fail at any step, and closes with
-- other calls before, between and after their requests, on a modem that gives each call a handle
-- other than 0: the WDS clients and the data calls are exactly those of the sessions whose Close
-- has not given them back, no two sessions share a number or a mux, every session has a handle,
-- and every session of the present topology that is not being closed still has its interface,
-- which is not the default one.
pub Arrived-IsValid : {d : DataPlane} → Arrived d → IsValid d
unfolding live all_upto is_separate all_carried has_handles
Arrived-IsValid (initial muxes) = record {
  leased = refl;
  called = refl;
  numbered = refl;
  separate = refl;
  carried = refl;
  handled = refl;
}
Arrived-IsValid (stepped r s) = step-IsValid s (Arrived-IsValid r)
