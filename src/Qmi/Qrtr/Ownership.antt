-- ===== src/Qmi/Qrtr/Ownership.antt =====
-- The calls keep the sockets owned.
use qmi_go.Base.{ℕ, ◌≡◌, refl, arith, true, List, [], ◌∷◌}
use qmi_go.Base.{◌==◌, ltb, if◌then◌else◌, inl, inr, if_both, take, drop}
use qmi_go.Base.{Option-cases, Result-cases, length}
use qmi_go.Base.Maps.{lookup, Unique, erase-Unique}
use qmi_go.Qmi.Header.{CtlHeader, unmarshal_frame_header, unmarshal_ctl_header, ctl_header_size}
use qmi_go.Qmi.Tlv.{Tlv, parse_tlvs}
use qmi_go.Qmi.Packet.{service_control}
use qmi_go.Qmi.Qrtr.{
  Transport, QrtrClient, QrtrService, Event, Env, on_event, resolve_service, fresh_transport,
  ctl_sync, ctl_get_version_info, ctl_get_client_id, ctl_release_client_id,
}
use qmi_go.Qmi.Qrtr.Calls.{
  Called, reply_ctl, reply_ctl_error, open_client, allocate_service, handle_allocate_client_id,
  release_service, handle_release_client_id, wait_enumerated, enumerate_services,
  handle_get_version_info, dispatch_ctl, handle_ctl_write, handle_data_write, write,
  client_datagram, requested_service, released_service, read_size,
}
use qmi_go.Qmi.Qrtr.Sockets.{
  IsOwned, count, held, push_rx-IsOwned, on_event-IsOwned, on_events-IsOwned,
  resolve_service-IsOwned, close_in-IsOwned, adopt_client-IsOwned, held-erase, count-close_sock,
}

abbrev Owned : Called → Type 0
Owned r = IsOwned [] r.0

reply_ctl-IsOwned :
    (t : Transport) (tx_id msg_id : ℕ) (tlvs : List Tlv)
    → IsOwned [] t
    → IsOwned [] (reply_ctl t tx_id msg_id tlvs)
unfolding reply_ctl
reply_ctl-IsOwned t tx_id msg_id tlvs o = push_rx-IsOwned [] t _ o

opened-IsOwned :
    (t : Transport) (sock cid : ℕ)
    → IsOwned [] t
    → IsOwned (sock ∷ []) (record t { sockets = sock ∷ t.sockets; next_cid = cid })
opened-IsOwned t sock cid o = record { unique = o.unique; owned = λ s. omega (arith, o.owned s) }

open_client-IsOwned :
    (t : Transport) (tx_id service : ℕ) (srv : QrtrService) (env : Env)
    → IsOwned [] t
    → Owned (open_client t tx_id service srv env)
unfolding open_client
open_client-IsOwned t tx_id service srv env o = elim (Option-cases env.new_sock) [
  | inl e ↦ rw (e, open_client) o
  | inr (sock, e) ↦
      rw (e, open_client)
        (if_both Owned env.timeout_set
          (adopt_client-IsOwned _ tx_id service srv sock _
            (on_events-IsOwned (sock ∷ []) _ env.before_lock (opened-IsOwned t sock _ o)))
          (close_in-IsOwned _ sock (opened-IsOwned t sock t.next_cid o)))
]

allocate_service-IsOwned :
    (t : Transport) (tx_id service : ℕ) (env : Env)
    → IsOwned [] t
    → Owned (allocate_service t tx_id service env)
unfolding allocate_service reply_ctl_error
allocate_service-IsOwned t tx_id service env o =
    let waited = resolve_service-IsOwned t service env o in
    elim (Option-cases (resolve_service t service env).1) [
      | inl e ↦ rw (e, allocate_service) (reply_ctl-IsOwned _ tx_id _ _ waited)
      | inr (srv, e) ↦ rw (e, allocate_service) (open_client-IsOwned _ tx_id service srv env waited)
    ]

handle_allocate-IsOwned :
    (t : Transport) (tx_id : ℕ) (tlvs : List Tlv) (env : Env)
    → IsOwned [] t
    → Owned (handle_allocate_client_id t tx_id tlvs env)
unfolding handle_allocate_client_id reply_ctl_error
handle_allocate-IsOwned t tx_id tlvs env o = elim (Option-cases (requested_service tlvs)) [
  | inl e ↦ rw (e, handle_allocate_client_id) (reply_ctl-IsOwned t tx_id _ _ o)
  | inr (service, e) ↦
      rw (e, handle_allocate_client_id) (allocate_service-IsOwned t tx_id service env o)
]

release_service-IsOwned :
    (t : Transport) (service : ℕ) → IsOwned [] t → IsOwned [] (release_service t service)
unfolding release_service
release_service-IsOwned t service o = elim (Option-cases (lookup service t.clients)) [
  | inl e ↦ rw (e, release_service) o
  | inr (c, e) ↦
      rw (e, release_service)
        (record {
          unique = erase-Unique service t.clients o.unique;
          owned = λ s. omega (
            arith,
            held-erase s service c t.clients o.unique e,
            count-close_sock s c.sock t.sockets,
            o.owned s,
          );
        })
]

handle_release-IsOwned :
    (t : Transport) (tx_id : ℕ) (tlvs : List Tlv)
    → IsOwned [] t
    → Owned (handle_release_client_id t tx_id tlvs)
unfolding handle_release_client_id reply_ctl_error
handle_release-IsOwned t tx_id tlvs o = elim (Option-cases (released_service tlvs)) [
  | inl e ↦ rw (e, handle_release_client_id) (reply_ctl-IsOwned t tx_id _ _ o)
  | inr (service, e) ↦
      rw (e, handle_release_client_id)
        (reply_ctl-IsOwned _ tx_id _ _ (release_service-IsOwned t service o))
]

wait_enumerated-IsOwned :
    (start : ℕ) (t : Transport) (es : List Event)
    → IsOwned [] t
    → IsOwned [] (wait_enumerated start t es)
unfolding wait_enumerated
wait_enumerated-IsOwned start t [] o = o
wait_enumerated-IsOwned start t (e ∷ es) o =
    if_both (IsOwned []) (if t.enum_gen == start then t.closed else true) o
      (wait_enumerated-IsOwned start (on_event t e) es (on_event-IsOwned [] t e o))

handle_version-IsOwned :
    (t : Transport) (tx_id : ℕ) (env : Env)
    → IsOwned [] t
    → Owned (handle_get_version_info t tx_id env)
unfolding handle_get_version_info enumerate_services
handle_version-IsOwned t tx_id env o = reply_ctl-IsOwned _ tx_id _ _ (
    if_both (IsOwned []) t.closed o (
      if_both (IsOwned []) env.lookup_sent
        (wait_enumerated-IsOwned t.enum_gen t env.while_waiting o) o))

dispatch_ctl-IsOwned :
    (t : Transport) (h : CtlHeader) (tlvs : List Tlv) (env : Env)
    → IsOwned [] t
    → Owned (dispatch_ctl t h tlvs env)
unfolding dispatch_ctl
dispatch_ctl-IsOwned t h tlvs env o =
    if_both Owned (h.message_id == ctl_sync) (reply_ctl-IsOwned t h.transaction_id _ _ o) (
      if_both Owned (h.message_id == ctl_get_version_info)
        (handle_version-IsOwned t h.transaction_id env o)
        (if_both Owned (h.message_id == ctl_get_client_id)
          (handle_allocate-IsOwned t h.transaction_id tlvs env o)
          (if_both Owned (h.message_id == ctl_release_client_id)
            (handle_release-IsOwned t h.transaction_id tlvs o) o)))

handle_ctl_write-IsOwned :
    (t : Transport) (body : List ℕ) (env : Env) → IsOwned [] t → Owned (handle_ctl_write t body env)
unfolding handle_ctl_write
handle_ctl_write-IsOwned t body env o = elim (Result-cases (unmarshal_ctl_header body)) [
  | inr (x, e) ↦ rw (e, handle_ctl_write) o
  | inl (h, e) ↦
      rw (e, handle_ctl_write)
        (if_both Owned (ltb (length (drop ctl_header_size body)) h.tlv_length) o
          (elim (Option-cases (parse_tlvs (take h.tlv_length (drop ctl_header_size body))).1) [
            | inl p ↦ rw p (dispatch_ctl-IsOwned t h _ env o)
            | inr (x, p) ↦ rw p o
          ]))
]

handle_data_write-IsOwned :
    (t : Transport) (service client_id : ℕ) (body : List ℕ) (env : Env)
    → IsOwned [] t
    → Owned (handle_data_write t service client_id body env)
unfolding handle_data_write
handle_data_write-IsOwned t service client_id body env o =
    elim (Option-cases (lookup service t.clients)) [
      | inl e ↦ rw (e, handle_data_write) o
      | inr (c, e) ↦
          rw (e, handle_data_write)
            (if_both Owned env.data_sent (record { unique = o.unique; owned = o.owned }) o)
    ]

-- Whatever is written, and whatever happens meanwhile, a write keeps the data sockets owned.
pub write-IsOwned :
    (t : Transport) (frame : List ℕ) (env : Env) → IsOwned [] t → IsOwned [] (write t frame env).0
unfolding write
write-IsOwned t frame env o = elim (Result-cases (unmarshal_frame_header frame)) [
  | inr (x, e) ↦ rw (e, write) o
  | inl (fh, e) ↦
      rw (e, write)
        (if_both Owned (ltb (length frame) fh.header_size) o (
          if_both Owned (fh.service_type == service_control) (handle_ctl_write-IsOwned t _ env o)
            (handle_data_write-IsOwned t fh.service_type fh.client_id _ env o)))
]

-- A step of a history: a write, an event, or a datagram for the client of a service.
pub data Step : Type 0 where
  writes : List ℕ → Env → Step
  happens : Event → Step
  receives : ℕ → QrtrClient → List ℕ → Step

unfoldable pub step : Transport → Step → Transport
step t (writes frame env) = (write t frame env).0
step t (happens e) = on_event t e
step t (receives service c datagram) = client_datagram t service c datagram

unfoldable pub run : Transport → List Step → Transport
unfolding step
run t [] = t
run t (s ∷ rest) = run (step t s) rest

step-IsOwned : (t : Transport) (s : Step) → IsOwned [] t → IsOwned [] (step t s)
unfolding step client_datagram
step-IsOwned t (writes frame env) o = write-IsOwned t frame env o
step-IsOwned t (happens e) o = on_event-IsOwned [] t e o
step-IsOwned t (receives service c datagram) o =
    if_both (IsOwned []) (length (take read_size datagram) == 0) o (push_rx-IsOwned [] t _ o)

run-IsOwned : (t : Transport) (steps : List Step) → IsOwned [] t → IsOwned [] (run t steps)
unfolding run
run-IsOwned t [] o = o
run-IsOwned t (s ∷ rest) o = run-IsOwned (step t s) rest (step-IsOwned t s o)

-- From a fresh transport on, through any history of writes, control packets, datagrams and closes:
-- no service has two clients, and every data socket is open exactly as often as clients hold it,
-- so none leaks on any error path.
pub run-fresh_owned :
    (steps : List Step) (sock : ℕ)
    → Unique (run fresh_transport steps).clients
      × (count sock (run fresh_transport steps).sockets
          ≡ held sock (run fresh_transport steps).clients)
run-fresh_owned steps sock =
    let o = run-IsOwned fresh_transport steps (record { unique = tt; owned = λ s. refl }) in
    (o.unique, omega (arith, o.owned sock))
