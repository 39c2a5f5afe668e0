-- ===== src/Qmi/Qrtr/Received.antt =====
-- Requests that the client marshals, as the transport handles them.
use qmi_go.Base.{ℕ, ◌+◌, ◌%◌, ◌<◌, ◌≡◌, ◌≢◌, refl, ◌∙◌, sym, arith, true}
use qmi_go.Base.{List, [], ◌∷◌, ◌++◌, length, length-append, drop, take, drop-append, take_all}
use qmi_go.Base.{none, some, ◌==◌, if◌then◌else◌}
use qmi_go.Base.{ne→==_false, le→ltb_false}
use qmi_go.Base.Words.{IsU16}
use qmi_go.Base.Maps.{lookup}
use qmi_go.Qmi.Header.{CtlHeader, marshal_frame_header, marshal_ctl_header}
use qmi_go.Qmi.Header.RoundTrip.{
  expected_header, unmarshal_frame_header-marshal, unmarshal_ctl_header-marshal,
}
use qmi_go.Qmi.Tlv.{Tlv, marshal_tlvs, parse_tlvs}
use qmi_go.Qmi.Packet.{Packet, service_control, marshal_packet, marshal_body}
use qmi_go.Qmi.Packet.RoundTrip.{
  IsSendable, parse_tlvs-marshal_self, length-marshal_ctl_header, length-marshal_frame_header,
  length-marshal_body,
}
use qmi_go.Qmi.Qrtr.{Transport, Env}
use qmi_go.Qmi.Qrtr.Calls.{write, handle_ctl_write, handle_data_write, dispatch_ctl, no_client}

-- The transport sees the body that the client framed.
write_body :
    (t : Transport) (service client_id : ℕ) (body : List ℕ) (env : Env)
    → IsU16 service
    → length body + 6 < 65536
    → write t (marshal_frame_header service client_id (length body) ++ body) env ≡ (
        if service == service_control
        then handle_ctl_write t body env
        else handle_data_write t service client_id body env)
unfolding write
write_body t service client_id body env hs hb =
    let header = marshal_frame_header service client_id (length body) in
    let n = length-marshal_frame_header service client_id (length body) in
    rw
      (
        unmarshal_frame_header-marshal service client_id (length body) body hs hb,
        le→ltb_false (length (header ++ body))
            (expected_header service client_id (length body)).header_size
            (omega (arith, n, length-append header body)),
        drop-append (expected_header service client_id (length body)).header_size header body
            (sym n),
        write,
      )
      refl

abbrev pub request_header : Packet → CtlHeader
request_header p = record {
  control_flags = 0x00;
  transaction_id = p.transaction_id % 256;
  message_id = p.message_id;
  tlv_length = length (marshal_tlvs p.tlvs) % 65536;
}

marshal_body-ctl :
    (p : Packet)
    → p.service_type ≡ service_control
    → marshal_body p ≡ marshal_ctl_header (request_header p) ++ marshal_tlvs p.tlvs
unfolding marshal_body
marshal_body-ctl p e = ground arith

handle_ctl_write-header :
    (t : Transport) (h : CtlHeader) (ts : List Tlv) (env : Env)
    → IsU16 h.message_id
    → IsU16 h.tlv_length
    → h.tlv_length ≡ length (marshal_tlvs ts)
    → parse_tlvs (marshal_tlvs ts) ≡ (ts, none)
    → handle_ctl_write t (marshal_ctl_header h ++ marshal_tlvs ts) env ≡ dispatch_ctl t h ts env
unfolding handle_ctl_write
handle_ctl_write-header t h ts env hm hl len parsed =
    let cut : take h.tlv_length (drop 6 (marshal_ctl_header h ++ marshal_tlvs ts))
        ≡ marshal_tlvs ts =
      rw
        (drop-append 6 (marshal_ctl_header h) (marshal_tlvs ts) (sym (length-marshal_ctl_header h)))
        (take_all h.tlv_length (marshal_tlvs ts) (omega arith)) in
    rw
      (
        unmarshal_ctl_header-marshal h (marshal_tlvs ts) hm hl,
        drop-append 6 (marshal_ctl_header h) (marshal_tlvs ts) (sym (length-marshal_ctl_header h)),
        le→ltb_false (length (marshal_tlvs ts)) h.tlv_length (omega arith),
        take_all h.tlv_length (marshal_tlvs ts) (omega arith),
        parsed,
        handle_ctl_write,
      )
      (rw (cut, parsed) refl)

-- A CTL request that the client marshals is the request that the transport dispatches.
pub write-ctl :
    (t : Transport) (p : Packet) (env : Env)
    → IsSendable p
    → p.service_type ≡ service_control
    → write t (marshal_packet p) env ≡ dispatch_ctl t (request_header p) p.tlvs env
unfolding marshal_packet
write-ctl t p env s e =
    write_body t p.service_type p.client_id (marshal_body p) env s.service_fits
      (omega (arith, length-marshal_body p, s.total_fits))
    ∙ ground (
      arith,
      marshal_body-ctl p e,
      handle_ctl_write-header t (request_header p) p.tlvs env s.message_fits (omega arith)
          (omega (arith, s.total_fits)) (parse_tlvs-marshal_self p.tlvs s.values_fit),
    )

-- Where the socket takes it, a sendable message to another service leaves through the socket of
-- that service's client, to the peer
-- that was looked up, as its bare body, whatever client number it names. Without a client the
-- write fails, and nothing is sent or changed.
pub write-data :
    (t : Transport) (p : Packet) (env : Env)
    → IsSendable p
    → p.service_type ≢ service_control
    → env.data_sent ≡ true
    → write t (marshal_packet p) env ≡ elim (lookup p.service_type t.clients) [
      | none ↦ (t, some no_client)
      | some c ↦ (
        record t {
          sent = t.sent ++ (record { from = c.sock; to = c.peer; sdu = marshal_body p } ∷ []);
        },
        none,
      )
    ]
unfolding marshal_packet handle_data_write
write-data t p env s other sent =
    write_body t p.service_type p.client_id (marshal_body p) env s.service_fits
      (omega (arith, length-marshal_body p, s.total_fits))
    ∙ rw (ne→==_false p.service_type service_control other) (ground arith)
