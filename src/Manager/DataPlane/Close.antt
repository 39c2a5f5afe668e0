-- ===== src/Manager/DataPlane/Close.antt =====
-- `Close` of pkg/manager/pdn_session.go in its steps, by the number of the session. dataPlane.mu is held in
-- the first and in the last of them, and released in between, where other calls come.
use qmi_go.Base.{ℕ, List, [], ◌∷◌, ◌&&◌, not, true, Option, none, some, ◌==◌, if◌then◌else◌}
use qmi_go.Manager.DataPlane.{DataPlane, Session, remove}

unfoldable pub find_session : ℕ → List Session → Option Session
find_session id [] = none
find_session id (s ∷ ss) = let more = find_session id ss in if s.id == id then some s else more

unfoldable pub update_session : ℕ → (Session → Session) → List Session → List Session
update_session id f [] = []
update_session id f (s ∷ ss) = (if s.id == id then f s else s) ∷ update_session id f ss

unfoldable pub delete_session : ℕ → List Session → List Session
delete_session id [] = []
delete_session id (s ∷ ss) =
    let more = delete_session id ss in if s.id == id then more else s ∷ more

-- `closeOnce`, and under the lock whether the topology is still the one of the session.
abbrev pub closing : ℕ → Session → Session
closing generation s = record s { is_closing = true; is_owned = s.generation == generation }

unfoldable pub begin_found : DataPlane → ℕ → Option Session → DataPlane
begin_found d id none = d
begin_found d id (some s) =
    if s.is_closing
    then d
    else record d { sessions = update_session id (closing d.snapshot.generation) d.sessions }

unfoldable pub begin_close : DataPlane → ℕ → DataPlane
begin_close d id = begin_found d id (find_session id d.sessions)

abbrev pub released : Session → Session
released s = record s { is_released = true }

-- The call is stopped if it has a handle, and the client is released. Both are of the session alone.
abbrev pub release_now : DataPlane → ℕ → Session → DataPlane
release_now d id s = record d {
  calls = if not (s.handle == 0) then remove id d.calls else d.calls;
  leases = remove id d.leases;
  sessions = update_session id released d.sessions;
}

unfoldable pub release_found : DataPlane → ℕ → Option Session → DataPlane
release_found d id none = d
release_found d id (some s) = if s.is_closing && not s.is_released then release_now d id s else d

unfoldable pub release_session : DataPlane → ℕ → DataPlane
release_session d id = release_found d id (find_session id d.sessions)

abbrev pub detached : Session → Session
detached s = record s { is_detached = true }

-- The interface is deleted if the topology was the one of the session when the Close began.
abbrev pub detach_now : DataPlane → ℕ → Session → DataPlane
detach_now d id s = record d {
  muxes = if s.is_owned then remove s.mux d.muxes else d.muxes;
  sessions = update_session id detached d.sessions;
}

unfoldable pub detach_found : DataPlane → ℕ → Option Session → DataPlane
detach_found d id none = d
detach_found d id (some s) =
    if s.is_closing && (s.is_released && not s.is_detached) then detach_now d id s else d

unfoldable pub detach_session : DataPlane → ℕ → DataPlane
detach_session d id = detach_found d id (find_session id d.sessions)

-- Under the lock again, the session leaves the map.
unfoldable pub end_found : DataPlane → ℕ → Option Session → DataPlane
end_found d id none = d
end_found d id (some s) =
    if s.is_released && s.is_detached
    then record d { sessions = delete_session id d.sessions }
    else d

unfoldable pub end_close : DataPlane → ℕ → DataPlane
end_close d id = end_found d id (find_session id d.sessions)
