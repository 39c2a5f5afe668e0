-- ===== src/Qmi/Client/ClientIds.antt =====
-- The cache of client numbers: AllocateClientIDWithContext, ReleaseClientIDWithContext, GetClientID
-- and handleClientIDRevoke of pkg/qmi/client.go. What a request for a number brings is an argument.
use qmi_go.Base.{ℕ, zero, suc, ◌≡◌, refl, ap, ◌∙◌, ◌&&◌, arith, List, [], ◌∷◌, Bool, true, false}
use qmi_go.Base.{
  Option, none, some, if◌then◌else◌, ◌==◌, if_both, ◌++◌, Result, ok, err, ◌⊎◌, inl, inr, ==_self,
}
use qmi_go.Base.Maps.{lookup, insert, erase, lookup-erase}
use qmi_go.Qmi.Packet.{Packet, check_result}
use qmi_go.Qmi.Tlv.{find_tlv}
use qmi_go.Qmi.Ctl.{decode_service_client, ensure_service_allocatable, VersionMap}
use qmi_go.Qmi.Client.{
  Client, Cause, revoke_client_id, handle_client_id_revoke, revoked, dispatch, receive_packet,
}

-- The outcome of one `SendRequest`: the response, or the error and whether the caller's context has
-- ended by then.
pub data Attempt : Type 0 where
  answered : Packet → Attempt
  failed : Cause → Bool → Attempt

pub data AllocateError : Type 0 where
  not_supported rejected invalid_response : AllocateError
  no_response : Option Cause → AllocateError

unfoldable pub allocated_id : Packet → Result AllocateError ℕ
allocated_id resp = elim (check_result resp) [
  | some e ↦ err rejected
  | none ↦ elim (find_tlv resp.tlvs 0x01) [
    | none ↦ err invalid_response
    | some t ↦ elim (decode_service_client t.value) [
      | none ↦ err invalid_response
      | some (service, client_id) ↦ ok client_id
    ]
  ]
]

-- The number goes into the cache.
abbrev pub cached : Client → ℕ → Result AllocateError ℕ → Client × Result AllocateError ℕ
cached c service (ok client_id) =
    (record c { client_ids = insert service client_id c.client_ids }, ok client_id)
cached c service (err e) = (c, err e)

-- The loop: `retries` requests at most, whose outcomes are `attempts`.
unfoldable pub allocate_loop :
    ℕ → Client → ℕ → Option Cause → (ℕ → Attempt) → Client × Result AllocateError ℕ
allocate_loop zero c service last attempts = (c, err (no_response last))
allocate_loop (suc retries) c service last attempts = elim (attempts 0) [
  | answered resp ↦ cached c service (allocated_id resp)
  | failed e ended ↦
      let more = allocate_loop retries c service (some e) (λ n. attempts (suc n)) in
      if ended then (c, err (no_response (some e))) else more
]

unfoldable pub allocate_client_id :
    Client → Option VersionMap → ℕ → (ℕ → Attempt) → Client × Result AllocateError ℕ
unfolding allocate_loop
allocate_client_id c versions service attempts =
    let r = allocate_loop 3 c service none attempts in
    if ensure_service_allocatable versions service then r else (c, err not_supported)

-- `ReleaseClientIDWithContext`: true is a nil error.
unfoldable pub release_client_id : Client → ℕ → Attempt → Client × Bool
release_client_id c service (failed e ended) = (c, false)
release_client_id c service (answered resp) = elim (check_result resp) [
  | some e ↦ (c, false)
  | none ↦ (record c { client_ids = erase service c.client_ids }, true)
]

unfoldable pub get_client_id : Client → ℕ → ℕ
get_client_id c service = elim (lookup service c.client_ids) [ none ↦ 0 | some id ↦ id ]

-- An allocation changes the cache only when it succeeds, and then only for its service.
abbrev pub Caches : Client → ℕ → Client × Result AllocateError ℕ → Type 0
Caches c service (d, ok client_id) =
    d ≡ record c { client_ids = insert service client_id c.client_ids }
Caches c service (d, err e) = d ≡ c

cached-Caches :
    (c : Client) (service : ℕ) (r : Result AllocateError ℕ) → Caches c service (cached c service r)
cached-Caches c service (ok client_id) = refl
cached-Caches c service (err e) = refl

attempt-cases :
    (a : Attempt)
    → ((resp : Packet) × (a ≡ answered resp))
      ⊎ ((e : Cause) × (ended : Bool) × (a ≡ failed e ended))
attempt-cases (answered resp) = inl (resp, refl)
attempt-cases (failed e ended) = inr (e, ended, refl)

allocate_loop-Caches :
    (retries : ℕ) (c : Client) (service : ℕ) (last : Option Cause) (attempts : ℕ → Attempt)
    → Caches c service (allocate_loop retries c service last attempts)
unfolding allocate_loop
allocate_loop-Caches zero c service last attempts = refl
allocate_loop-Caches (suc retries) c service last attempts = elim (attempt-cases (attempts 0)) [
  | inl (resp, a) ↦ rw (a, allocate_loop) (cached-Caches c service (allocated_id resp))
  | inr (e, ended, a) ↦
      rw (a, allocate_loop)
        (if_both (Caches c service) ended refl
          (allocate_loop-Caches retries c service (some e) (λ n. attempts (suc n))))
]

-- Whatever the attempts bring, an allocation that fails leaves the client as it was, and one that
-- succeeds changes the cached number of its service and nothing else.
pub allocate-Caches :
    (c : Client) (versions : Option VersionMap) (service : ℕ) (attempts : ℕ → Attempt)
    → Caches c service (allocate_client_id c versions service attempts)
unfolding allocate_client_id
allocate-Caches c versions service attempts =
    if_both (Caches c service) (ensure_service_allocatable versions service)
      (allocate_loop-Caches 3 c service none attempts) refl

handle-revoked :
    (c : Client) (p : Packet) (service client_id : ℕ)
    → revoked p ≡ some (service, client_id)
    → handle_client_id_revoke c p
      ≡ record c { client_ids = revoke_client_id c.client_ids service client_id }
unfolding handle_client_id_revoke
handle-revoked c p service client_id e = rw (e, handle_client_id_revoke) refl

receive_packet-revoked :
    (c : Client) (p : Packet) (service client_id now : ℕ)
    → revoked p ≡ some (service, client_id)
    → p.is_indication ≡ true
    → receive_packet c p now ≡ record c {
      client_ids = revoke_client_id c.client_ids service client_id;
      dispatched = c.dispatched ++ (p ∷ []);
    }
unfolding receive_packet dispatch
receive_packet-revoked c p service client_id now e indication =
    let one : receive_packet c p now ≡ dispatch c p = ground (arith, indication) in
    one
    ∙ ap (λ (d : Client). record d { dispatched = d.dispatched ++ (p ∷ []) })
        (handle-revoked c p service client_id e)

revoked_id :
    (c : Client) (service client_id other : ℕ) (events : List Packet)
    → let d : Client = record c {
      client_ids = revoke_client_id c.client_ids service client_id;
      dispatched = events;
    } in
      get_client_id d other ≡ (
        if service == other && get_client_id c other == client_id then 0 else get_client_id c other)
unfolding get_client_id revoke_client_id
revoked_id c service client_id other events =
    ground (arith, lookup-erase service other c.client_ids)

-- A revoke that the read loop receives takes the number of its service out of the cache when it is the
-- revoked one, leaves any other number and every other service, and is dispatched as an event.
pub receive-revoke :
    (c : Client) (p : Packet) (service client_id other now : ℕ)
    → revoked p ≡ some (service, client_id)
    → p.is_indication ≡ true
    → (service == other) ≡ false
    → let d = receive_packet c p now in
      (get_client_id d service
        ≡ (if get_client_id c service == client_id then 0 else get_client_id c service))
      × (get_client_id d other ≡ get_client_id c other)
      × (d.dispatched ≡ c.dispatched ++ (p ∷ []))
receive-revoke c p service client_id other now e indication apart =
    let events = c.dispatched ++ (p ∷ []) in
    let d = receive_packet-revoked c p service client_id now e indication in
    (
      ap (λ (x : Client). get_client_id x service) d
          ∙ revoked_id c service client_id service events
          ∙ rw (==_self service) refl,
      ap (λ (x : Client). get_client_id x other) d
          ∙ revoked_id c service client_id other events
          ∙ rw apart refl,
      ap (λ (x : Client). x.dispatched) d,
    )
