-- ===== src/Qmi/Qrtr/Allocated.antt =====
-- The request for a client number of pkg/qmi/client.go, as the transport of
-- pkg/qmi/qrtr_transport_linux.go answers it.
use qmi_go.Base.{ℕ, ◌%◌, ◌≤◌, ◌<◌, ◌≡◌, refl, ap, ◌∙◌, arith, true, false}
use qmi_go.Base.{List, [], ◌∷◌, ◌++◌, append-nil, length}
use qmi_go.Base.{All, ok, none, some, Bool-cases, inl, inr}
use qmi_go.Base.{==_self, leb, Option-cases}
use qmi_go.Base.Words.{IsU16}
use qmi_go.Base.Maps.{lookup, insert, lookup-insert}
use qmi_go.Qmi.Tlv.{Tlv, marshal_tlvs, find_tlv}
use qmi_go.Qmi.Tlv.RoundTrip.{Fits}
use qmi_go.Qmi.Packet.{Packet, service_control, marshal_packet, unmarshal_packet}
use qmi_go.Qmi.Packet.RoundTrip.{IsSendable}
use qmi_go.Qmi.Ctl.{encode_service_only, decode_service_only, encode_service_client}
use qmi_go.Qmi.Qrtr.{
  Transport, QrtrService, QrtrClient, Env, ctl_get_client_id, resolve_service, on_events, push_rx,
  close_sock,
}
use qmi_go.Qmi.Qrtr.Calls.{
  write, dispatch_ctl, handle_allocate_client_id, allocate_service, open_client, adopt_client,
  requested_service, reply_ctl, marshal_ctl_response, success_result, next_client_id,
}
use qmi_go.Qmi.Qrtr.Replies.{answer, unmarshal_packet-marshal_ctl_response, next_client_id_range}
use qmi_go.Qmi.Qrtr.Received.{request_header, write-ctl}

-- The request of `AllocateClientIDWithContext`.
abbrev pub client_id_request : ℕ → ℕ → Packet
client_id_request tx_id service = record {
  service_type = service_control;
  client_id = 0;
  transaction_id = tx_id;
  message_id = ctl_get_client_id;
  is_indication = false;
  tlvs = encode_service_only service ∷ [];
}

client_id_request-IsSendable :
    (tx_id service : ℕ) → IsU16 tx_id → IsSendable (client_id_request tx_id service)
unfolding encode_service_only marshal_tlvs
client_id_request-IsSendable tx_id service h = ground arith

requested_service-encode :
    (service : ℕ)
    → IsU16 service
    → requested_service (encode_service_only service ∷ []) ≡ some service
unfolding requested_service find_tlv
requested_service-encode service h = elim (Bool-cases (leb service 0xff)) [
  | inl narrow ↦ unfold encode_service_only decode_service_only in ground arith
  | inr wide ↦ unfold encode_service_only decode_service_only in ground arith
]

-- The client that a successful allocation makes.
abbrev pub new_client : Transport → ℕ → QrtrService → ℕ → QrtrClient
new_client t service srv sock = record {
  client_id = next_client_id t.next_cid;
  service = service;
  sock = sock;
  peer = record { node = srv.node; port = srv.port };
}

-- Where the socket of a retried request goes.
abbrev kept_sockets : Transport → ℕ → ℕ → List ℕ
kept_sockets t service sock = elim (lookup service t.clients) [
  | some old ↦ close_sock old.sock (sock ∷ t.sockets)
  | none ↦ sock ∷ t.sockets
]

abbrev allocated : Transport → ℕ → QrtrService → ℕ → Transport
allocated t service srv sock = record t {
  clients = insert service (new_client t service srv sock) t.clients;
  next_cid = next_client_id t.next_cid;
  sockets = kept_sockets t service sock;
}

adopt_client-open :
    (t : Transport) (tx_id service : ℕ) (srv : QrtrService) (sock : ℕ)
    → t.closed ≡ false
    → adopt_client
        (record t { sockets = sock ∷ t.sockets; next_cid = next_client_id t.next_cid })
        tx_id
        service
        srv
        sock
        (next_client_id t.next_cid)
      ≡ reply_ctl
          (allocated t service srv sock)
          tx_id
          ctl_get_client_id
          (success_result ∷ encode_service_client service (next_client_id t.next_cid) ∷ [])
unfolding adopt_client
adopt_client-open t tx_id service srv sock o = elim (Option-cases (lookup service t.clients)) [
  | inl e ↦ ground arith
  | inr (old, e) ↦ ground arith
]

allocate_service-known :
    (t : Transport) (tx_id service : ℕ) (env : Env) (srv : QrtrService) (sock : ℕ)
    → t.closed ≡ false
    → lookup service t.services ≡ some srv
    → env.new_sock ≡ some sock
    → env.timeout_set ≡ true
    → env.before_lock ≡ []
    → allocate_service t tx_id service env ≡ (
      reply_ctl
          (allocated t service srv sock)
          tx_id
          ctl_get_client_id
          (success_result ∷ encode_service_client service (next_client_id t.next_cid) ∷ []),
      none,
    )
unfolding allocate_service resolve_service open_client on_events
allocate_service-known t tx_id service env srv sock o known opened timeout nothing =
    ground (arith, adopt_client-open t tx_id service srv sock o)

dispatch_ctl-client_id :
    (t : Transport) (tx_id service : ℕ) (env : Env)
    → IsU16 service
    → dispatch_ctl t
        (request_header (client_id_request tx_id service))
        (client_id_request tx_id service).tlvs
        env
      ≡ allocate_service t (tx_id % 256) service env
unfolding dispatch_ctl handle_allocate_client_id
dispatch_ctl-client_id t tx_id service env h =
    rw (requested_service-encode service h, handle_allocate_client_id) refl

reply_ctl-clients :
    (t : Transport) (tx_id msg_id : ℕ) (tlvs : List Tlv)
    → (reply_ctl t tx_id msg_id tlvs).clients ≡ t.clients
unfolding reply_ctl push_rx
reply_ctl-clients t tx_id msg_id tlvs = ground arith

reply_ctl-rx :
    (t : Transport) (tx_id msg_id : ℕ) (tlvs : List Tlv)
    → t.closed ≡ false
    → (reply_ctl t tx_id msg_id tlvs).rx ≡ t.rx ++ (marshal_ctl_response tx_id msg_id tlvs ∷ [])
unfolding reply_ctl push_rx
reply_ctl-rx t tx_id msg_id tlvs o = ground arith

-- One short entry behind the result.
answer_tlvs_fit :
    (service cid : ℕ)
    → All Fits (success_result ∷ encode_service_client service cid ∷ [])
      × (length (marshal_tlvs (success_result ∷ encode_service_client service cid ∷ [])) < 65520)
unfolding success_result encode_service_client marshal_tlvs
answer_tlvs_fit service cid = elim (Bool-cases (leb service 0xff)) [
  | inl narrow ↦ rw narrow (omega arith)
  | inr wide ↦ rw wide (omega arith)
]

-- The request for a client of a known service, where the socket opens and nothing comes between:
-- the write succeeds, the service's client is the new one, at the looked-up address and with a
-- number from 1 to 255, and one frame is queued, which reads as the successful answer to this
-- request with the service and that number.
pub write-client_id_request :
    (t : Transport) (tx_id service : ℕ) (env : Env) (srv : QrtrService) (sock : ℕ)
    → IsU16 tx_id
    → IsU16 service
    → t.closed ≡ false
    → lookup service t.services ≡ some srv
    → env.new_sock ≡ some sock
    → env.timeout_set ≡ true
    → env.before_lock ≡ []
    → let r = write t (marshal_packet (client_id_request tx_id service)) env in
      let cid = next_client_id t.next_cid in
      (r.1 ≡ none)
      × (lookup service r.0.clients ≡ some (new_client t service srv sock))
      × (1 ≤ cid)
      × (cid ≤ 255)
      × (frame : List ℕ) × (r.0.rx ≡ t.rx ++ (frame ∷ []))
      × (unmarshal_packet frame
          ≡ ok (
              answer
                (tx_id % 256)
                ctl_get_client_id
                (success_result ∷ encode_service_client service cid ∷ [])))
write-client_id_request t tx_id service env srv sock ht hs open_t known opened timeout nothing =
    let tlvs = success_result ∷ encode_service_client service (next_client_id t.next_cid) ∷ [] in
    let frame = marshal_ctl_response (tx_id % 256) ctl_get_client_id tlvs in
    let result =
      write-ctl t (client_id_request tx_id service) env
        (client_id_request-IsSendable tx_id service ht) refl
      ∙ dispatch_ctl-client_id t tx_id service env hs
      ∙ allocate_service-known t (tx_id % 256) service env srv sock open_t known opened timeout
          nothing in
    let range = next_client_id_range t.next_cid in
    let after = allocated t service srv sock in
    let fits = answer_tlvs_fit service (next_client_id t.next_cid) in
    rw result (
      refl,
      ap (lookup service) (reply_ctl-clients after (tx_id % 256) ctl_get_client_id tlvs)
          ∙ lookup-insert service service (new_client t service srv sock) t.clients
          ∙ rw (==_self service) refl,
      range.0,
      omega (arith, range.1),
      frame,
      reply_ctl-rx after (tx_id % 256) ctl_get_client_id tlvs open_t,
      rw (append-nil frame) at (
          unmarshal_packet-marshal_ctl_response (tx_id % 256) ctl_get_client_id tlvs []
            (omega arith) fits.0 fits.1),
    )
