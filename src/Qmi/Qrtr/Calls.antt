-- ===== src/Qmi/Qrtr/Calls.antt =====
-- pkg/qmi/qrtr_transport_linux.go: `Write` and the calls below it.
use qmi_go.Base.{ℕ, ◌+◌, ◌-◌, ◌%◌, List, [], ◌∷◌, ◌++◌, true}
use qmi_go.Base.{length, drop, take, ltb, ◌==◌, if◌then◌else◌, Option, none, some}
use qmi_go.Base.{ok, err}
use qmi_go.Base.Words.{low_byte, high_byte}
use qmi_go.Base.Maps.{lookup, insert, erase}
use qmi_go.Qmi.Header.{
  ParseError, CtlHeader, marshal_frame_header, unmarshal_frame_header, marshal_ctl_header,
  unmarshal_ctl_header, ctl_header_size, qrtr_header_size,
}
use qmi_go.Qmi.Tlv.{Tlv, marshal_tlvs, parse_tlvs, find_tlv}
use qmi_go.Qmi.Packet.{service_control}
use qmi_go.Qmi.Ctl.{decode_service_only, encode_service_client, decode_service_client}
use qmi_go.Qmi.Qrtr.{
  Transport, QrtrService, QrtrClient, Env, Event, on_event, on_events, resolve_service, push_rx,
  close_in, ctl_get_version_info, ctl_get_client_id, ctl_release_client_id, ctl_sync,
  qmi_err_malformed_msg, qmi_err_device_not_ready,
}

unfoldable pub success_result : Tlv
success_result = record { tag = 0x02; value = 0x00 ∷ 0x00 ∷ 0x00 ∷ 0x00 ∷ [] }

unfoldable pub error_result : ℕ → Tlv
error_result code = record { tag = 0x02; value = 0x01 ∷ 0x00 ∷ low_byte code ∷ high_byte code ∷ [] }

-- A response has the flag 0x01, where a request of `Packet.Marshal` has none.
unfoldable pub marshal_ctl_response : ℕ → ℕ → List Tlv → List ℕ
marshal_ctl_response tx_id msg_id tlvs =
    let bytes = marshal_tlvs tlvs in
    let body =
      marshal_ctl_header (record {
        control_flags = 0x01;
        transaction_id = tx_id;
        message_id = msg_id;
        tlv_length = length bytes % 65536;
      })
      ++ bytes in
    marshal_frame_header service_control 0 (length body) ++ body

unfoldable pub reply_ctl : Transport → ℕ → ℕ → List Tlv → Transport
reply_ctl t tx_id msg_id tlvs = push_rx t (marshal_ctl_response tx_id msg_id tlvs)

unfoldable pub reply_ctl_error : Transport → ℕ → ℕ → ℕ → Transport
reply_ctl_error t tx_id msg_id code = reply_ctl t tx_id msg_id (error_result code ∷ [])

pub data WriteError : Type 0 where
  bad_frame ctl_header tlv_parse : ParseError → WriteError
  short_write ctl_truncated unsupported_ctl open_socket recv_timeout no_client send_failed :
      WriteError

-- The transport after a call, and its error; none is nil.
abbrev pub Called : Type 0
Called = Transport × Option WriteError

-- `allocateCID`: a uint8 that skips 0.
unfoldable pub next_client_id : ℕ → ℕ
next_client_id cid = if (cid + 1) % 256 == 0 then 1 else (cid + 1) % 256

-- The part of `handleAllocateClientID` after the second lock, for the socket `sock`.
unfoldable pub adopt_client : Transport → ℕ → ℕ → QrtrService → ℕ → ℕ → Transport
adopt_client t tx_id service srv sock cid =
    if t.closed
    then reply_ctl_error (close_in t sock) tx_id ctl_get_client_id qmi_err_device_not_ready
    else (let t' : Transport = elim (lookup service t.clients) [
      | some old ↦ close_in t old.sock
      | none ↦ t
    ] in
        reply_ctl
          (record t' {
            clients =
                insert service
                  (record {
                    client_id = cid;
                    service = service;
                    sock = sock;
                    peer = record { node = srv.node; port = srv.port };
                  })
                  t'.clients;
          })
          tx_id ctl_get_client_id (success_result ∷ encode_service_client service cid ∷ []))

-- The part after the service has been resolved. A failed `SetRecvTimeout` closes the socket.
unfoldable pub open_client : Transport → ℕ → ℕ → QrtrService → Env → Called
open_client t tx_id service srv env = elim env.new_sock [
  | none ↦ (t, some open_socket)
  | some sock ↦
      if env.timeout_set
      then (let cid = next_client_id t.next_cid in
          let opened : Transport = record t { sockets = sock ∷ t.sockets; next_cid = cid } in
          (adopt_client (on_events opened env.before_lock) tx_id service srv sock cid, none))
      else (close_in (record t { sockets = sock ∷ t.sockets }) sock, some recv_timeout)
]

unfoldable pub allocate_service : Transport → ℕ → ℕ → Env → Called
allocate_service t tx_id service env =
    let (waited, found) = resolve_service t service env in
    elim found [
      | none ↦ (reply_ctl_error waited tx_id ctl_get_client_id qmi_err_device_not_ready, none)
      | some srv ↦ open_client waited tx_id service srv env
    ]

-- The service that an entry 0x01 names, for the two requests that carry one.
unfoldable pub requested_service : List Tlv → Option ℕ
requested_service tlvs = elim (find_tlv tlvs 0x01) [
  | none ↦ none
  | some t ↦ decode_service_only t.value
]

unfoldable pub released_service : List Tlv → Option ℕ
released_service tlvs = elim (find_tlv tlvs 0x01) [
  | none ↦ none
  | some t ↦ elim (decode_service_client t.value) [
    | none ↦ none
    | some (service, cid) ↦ some service
  ]
]

unfoldable pub handle_allocate_client_id : Transport → ℕ → List Tlv → Env → Called
handle_allocate_client_id t tx_id tlvs env = elim (requested_service tlvs) [
  | none ↦ (reply_ctl_error t tx_id ctl_get_client_id qmi_err_malformed_msg, none)
  | some service ↦ allocate_service t tx_id service env
]

unfoldable pub release_service : Transport → ℕ → Transport
release_service t service = elim (lookup service t.clients) [
  | none ↦ t
  | some c ↦ close_in (record t { clients = erase service t.clients }) c.sock
]

unfoldable pub handle_release_client_id : Transport → ℕ → List Tlv → Called
handle_release_client_id t tx_id tlvs = elim (released_service tlvs) [
  | none ↦ (reply_ctl_error t tx_id ctl_release_client_id qmi_err_malformed_msg, none)
  | some service ↦ (
    reply_ctl (release_service t service) tx_id ctl_release_client_id (success_result ∷ []),
    none,
  )
]

-- The wait of `enumerateServices` ends at the sentinel, at `close` or at the deadline.
unfoldable pub wait_enumerated : ℕ → Transport → List Event → Transport
wait_enumerated start t [] = t
wait_enumerated start t (e ∷ rest) =
    let later = wait_enumerated start (on_event t e) rest in
    if (if t.enum_gen == start then t.closed else true) then t else later

unfoldable pub enumerate_services : Transport → Env → Transport
enumerate_services t env =
    if t.closed
    then t
    else if env.lookup_sent
    then wait_enumerated t.enum_gen t env.while_waiting
    else t

-- The services of eight bits, in the map's order, with their major versions.
unfoldable pub narrow_services : List (ℕ × QrtrService) → List (ℕ × ℕ)
narrow_services [] = []
narrow_services ((service, s) ∷ rest) =
    let more = narrow_services rest in
    if ltb 0xff service then more else (service, s.version_major) ∷ more

unfoldable pub entries_bytes : List (ℕ × ℕ) → List ℕ
entries_bytes [] = []
entries_bytes ((service, major) ∷ rest) =
    low_byte service ∷ low_byte major ∷ high_byte major ∷ 0 ∷ 0 ∷ entries_bytes rest

unfoldable pub version_value : List (ℕ × QrtrService) → List ℕ
version_value services =
    let list = narrow_services services in low_byte (length list) ∷ entries_bytes list

unfoldable pub handle_get_version_info : Transport → ℕ → Env → Called
handle_get_version_info t tx_id env =
    let t' = enumerate_services t env in
    (
      reply_ctl t' tx_id ctl_get_version_info
          (success_result ∷ record { tag = 0x01; value = version_value t'.services } ∷ []),
      none,
    )

unfoldable pub dispatch_ctl : Transport → CtlHeader → List Tlv → Env → Called
dispatch_ctl t h tlvs env =
    if h.message_id == ctl_sync
    then (reply_ctl t h.transaction_id ctl_sync (success_result ∷ []), none)
    else if h.message_id == ctl_get_version_info
    then handle_get_version_info t h.transaction_id env
    else if h.message_id == ctl_get_client_id
    then handle_allocate_client_id t h.transaction_id tlvs env
    else if h.message_id == ctl_release_client_id
    then handle_release_client_id t h.transaction_id tlvs
    else (t, some unsupported_ctl)

unfoldable pub handle_ctl_write : Transport → List ℕ → Env → Called
handle_ctl_write t body env = elim (unmarshal_ctl_header body) [
  | err e ↦ (t, some (ctl_header e))
  | ok h ↦
      let tlv_bytes = drop ctl_header_size body in
      if ltb (length tlv_bytes) h.tlv_length
      then (t, some ctl_truncated)
      else (let (tlvs, e) = parse_tlvs (take h.tlv_length tlv_bytes) in
          elim e [ some x ↦ (t, some (tlv_parse x)) | none ↦ dispatch_ctl t h tlvs env ])
]

-- The client number of the frame is logged where it differs, and not used.
unfoldable pub handle_data_write : Transport → ℕ → ℕ → List ℕ → Env → Called
handle_data_write t service client_id body env = elim (lookup service t.clients) [
  | none ↦ (t, some no_client)
  | some c ↦
      if env.data_sent
      then (
        record t { sent = t.sent ++ (record { from = c.sock; to = c.peer; sdu = body } ∷ []) },
        none,
      )
      else (t, some send_failed)
]

unfoldable pub write : Transport → List ℕ → Env → Called
write t frame env = elim (unmarshal_frame_header frame) [
  | err e ↦ (t, some (bad_frame e))
  | ok fh ↦
      if ltb (length frame) fh.header_size
      then (t, some short_write)
      else (let body = drop fh.header_size frame in
          if fh.service_type == service_control
          then handle_ctl_write t body env
          else handle_data_write t fh.service_type fh.client_id body env)
]

-- `qrtrMaxFrameSize`, and the buffer of `runClientReader`. Both are kept shut: see `read_limits`.
unfoldable pub max_frame_size : ℕ
max_frame_size = 16384

unfoldable pub read_size : ℕ
unfolding max_frame_size
read_size = max_frame_size - qrtr_header_size

-- `rebuildFrame`, and what `runClientReader` does with one datagram.
unfoldable pub rebuild_frame : ℕ → ℕ → List ℕ → List ℕ
rebuild_frame service client_id sdu = marshal_frame_header service client_id (length sdu) ++ sdu

unfoldable pub client_datagram : Transport → ℕ → QrtrClient → List ℕ → Transport
client_datagram t service c datagram =
    let sdu = take read_size datagram in
    if length sdu == 0 then t else push_rx t (rebuild_frame service c.client_id sdu)
