-- ===== src/Qmi/Qrtr/Replies.antt =====
-- What the client reads of the answers that the transport makes up.
use qmi_go.Base.{ℕ, ◌%◌, ◌≤◌, ◌<◌, ◌≡◌, refl, ◌∙◌, arith, false}
use qmi_go.Base.{List, ◌∷◌, ◌++◌, length, length-append, All, ok, none, length-take}
use qmi_go.Base.{take}
use qmi_go.Base.Words.{IsByte, IsU16}
use qmi_go.Qmi.Tlv.{Tlv, marshal_tlvs, find_tlv}
use qmi_go.Qmi.Tlv.RoundTrip.{Fits}
use qmi_go.Qmi.Header.{CtlHeader, marshal_ctl_header, marshal_frame_header}
use qmi_go.Qmi.Packet.{
  Packet, service_control, unmarshal_packet, check_result, get_result_code, parse_body,
}
use qmi_go.Qmi.Header.RoundTrip.{expected_header}
use qmi_go.Qmi.Packet.RoundTrip.{
  unmarshal_packet-frame, parse_ctl_body-header, length-marshal_ctl_header, parse_tlvs-marshal_self,
  length-marshal_frame_header_le,
}
use qmi_go.Qmi.Stream.Frames.{IsFrame, marshal_frame_header-IsFrame}
use qmi_go.Qmi.Qrtr.Calls.{
  marshal_ctl_response, rebuild_frame, success_result, next_client_id, read_size, max_frame_size,
}

-- The packet that stands in an answer.
abbrev pub answer : ℕ → ℕ → List Tlv → Packet
answer tx_id msg_id tlvs = record {
  service_type = service_control;
  client_id = 0;
  transaction_id = tx_id;
  message_id = msg_id;
  is_indication = false;
  tlvs = tlvs;
}

-- An answer whose values fit their length fields, and with less than 65,520 bytes of them, reads back,
-- with anything behind it, as a CTL message with the number of the request
-- and the given entries, and not as an indication.
pub unmarshal_packet-marshal_ctl_response :
    (tx_id msg_id : ℕ) (tlvs : List Tlv) (rest : List ℕ)
    → IsU16 msg_id
    → All Fits tlvs
    → length (marshal_tlvs tlvs) < 65520
    → unmarshal_packet (marshal_ctl_response tx_id msg_id tlvs ++ rest)
      ≡ ok (answer tx_id msg_id tlvs)
unfolding marshal_ctl_response
unmarshal_packet-marshal_ctl_response tx_id msg_id tlvs rest hm hf hl =
    let bytes = marshal_tlvs tlvs in
    let h : CtlHeader = record {
      control_flags = 0x01;
      transaction_id = tx_id;
      message_id = msg_id;
      tlv_length = length bytes % 65536;
    } in
    unmarshal_packet-frame 0 0 (marshal_ctl_header h ++ bytes) rest (omega arith)
      (omega (arith, length-append (marshal_ctl_header h) bytes, length-marshal_ctl_header h))
    ∙ unfold parse_body in
      parse_ctl_body-header (expected_header 0 0 (length (marshal_ctl_header h ++ bytes))) h bytes
        tlvs (omega arith) hm (omega arith) (parse_tlvs-marshal_self tlvs hf)

-- The answers that carry a result: success passes `CheckResult`, and an error does not.
check_result-success :
    (tx_id msg_id : ℕ) (more : List Tlv)
    → check_result (answer tx_id msg_id (success_result ∷ more)) ≡ none
unfolding check_result get_result_code success_result find_tlv
check_result-success tx_id msg_id more = refl

-- Client numbers are bytes and never 0.
pub next_client_id_range : (cid : ℕ) → (1 ≤ next_client_id cid) × IsByte (next_client_id cid)
unfolding next_client_id
next_client_id_range cid = ground arith

read_limits : (read_size ≡ 16377) × (max_frame_size ≡ 16384)
unfolding read_size
read_limits = (refl, refl)

-- Whatever datagram a modem sends, and however long, comes to the read loop as one frame, which
-- fits the loop's buffer of `max_frame_size` bytes.
pub rebuild_frame-IsFrame :
    (service client_id : ℕ) (datagram : List ℕ)
    → IsFrame (rebuild_frame service client_id (take read_size datagram))
      × (length (rebuild_frame service client_id (take read_size datagram)) ≤ max_frame_size)
unfolding rebuild_frame
rebuild_frame-IsFrame service client_id datagram =
    let sdu = take read_size datagram in
    let short = length-take read_size datagram in
    (
      marshal_frame_header-IsFrame service client_id sdu (omega (arith, short, read_limits.0)),
      omega (
        arith,
        short,
        read_limits.0,
        read_limits.1,
        length-append (marshal_frame_header service client_id (length sdu)) sdu,
        length-marshal_frame_header_le service client_id (length sdu),
      ),
    )
