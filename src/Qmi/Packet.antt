-- ===== src/Qmi/Packet.antt =====
-- pkg/qmi/frame.go: whole messages, their result code, and the service-identifier entry of CTL.
pub mod RoundTrip
use qmi_go.Base.{ℕ, ◌+◌, ◌%◌, ◌/◌, bit_and, List, [], ◌∷◌, ◌++◌, Bool, true, false, ◌&&◌, not}
use qmi_go.Base.{length, take, drop, ltb, leb, ◌==◌, if◌then◌else◌, Option, none, some}
use qmi_go.Base.{Result, ok, err, ◌>>=◌, ◌>>◌, guard}
use qmi_go.Base.Words.{byte_at, u16_at, low_byte, high_byte}
use qmi_go.Qmi.Header.{
  ParseError, bad_length, truncated_packet, short_ctl, short_service, truncated_tlvs, FrameHeader,
  ctl_header_size, service_header_size, marshal_frame_header, marshal_ctl_header,
  marshal_service_header, unmarshal_frame_header, unmarshal_ctl_header, unmarshal_service_header,
}
use qmi_go.Qmi.Tlv.{Tlv, ParsedTlvs, marshal_tlvs, parse_tlvs, find_tlv}

abbrev pub service_control : ℕ
service_control = 0x00

pub record Packet : Type 0 where
  pub service_type : ℕ
  pub client_id : ℕ
  pub transaction_id : ℕ
  pub message_id : ℕ
  pub is_indication : Bool
  pub tlvs : List Tlv

-- The message header and the entries; CTL keeps the low byte of the transaction number.
unfoldable pub marshal_body : Packet → List ℕ
marshal_body p =
    let bytes = marshal_tlvs p.tlvs in
    if p.service_type == service_control
    then marshal_ctl_header (record {
      control_flags = 0x00;
      transaction_id = p.transaction_id % 256;
      message_id = p.message_id;
      tlv_length = length bytes % 65536;
    })
      ++ bytes
    else marshal_service_header (record {
      control_flags = 0x00;
      transaction_id = p.transaction_id;
      message_id = p.message_id;
      tlv_length = length bytes % 65536;
    })
      ++ bytes

unfoldable pub marshal_packet : Packet → List ℕ
marshal_packet p =
    let body = marshal_body p in
    marshal_frame_header p.service_type p.client_id (length body) ++ body

-- `if err != nil { return nil, err }` after `ParseTLVs`.
abbrev pub all_parsed : ParsedTlvs → Result ParseError (List Tlv)
all_parsed (ts, none) = ok ts
all_parsed (ts, some e) = err e

unfoldable pub parse_ctl_body : FrameHeader → List ℕ → Result ParseError Packet
parse_ctl_body fh body = do
  guard (not (ltb (length body) ctl_header_size)) short_ctl
  h ← unmarshal_ctl_header body
  let tlv_bytes = drop ctl_header_size body
  guard (leb h.tlv_length (length tlv_bytes)) truncated_tlvs
  ts ← all_parsed (parse_tlvs (take h.tlv_length tlv_bytes))
  ok (record {
    service_type = fh.service_type;
    client_id = fh.client_id;
    transaction_id = h.transaction_id;
    message_id = h.message_id;
    is_indication = not (bit_and h.control_flags 0x02 == 0);
    tlvs = ts;
  })

unfoldable pub parse_service_body : FrameHeader → List ℕ → Result ParseError Packet
parse_service_body fh body = do
  guard (not (ltb (length body) service_header_size)) short_service
  h ← unmarshal_service_header body
  let tlv_bytes = drop service_header_size body
  guard (leb h.tlv_length (length tlv_bytes)) truncated_tlvs
  ts ← all_parsed (parse_tlvs (take h.tlv_length tlv_bytes))
  ok (record {
    service_type = fh.service_type;
    client_id = fh.client_id;
    transaction_id = h.transaction_id;
    message_id = h.message_id;
    is_indication = not (bit_and h.control_flags 0x04 == 0);
    tlvs = ts;
  })

-- The two ends of `UnmarshalPacket`: after the frame is cut out of `data`, CTL or another service.
unfoldable pub parse_body : FrameHeader → List ℕ → Result ParseError Packet
parse_body fh body =
    if fh.service_type == service_control
    then parse_ctl_body fh body
    else parse_service_body fh body

unfoldable pub unmarshal_packet : List ℕ → Result ParseError Packet
unmarshal_packet bytes = do
  fh ← unmarshal_frame_header bytes
  let total = fh.frame_length + 1
  guard (leb fh.header_size total) bad_length
  guard (leb total (length bytes)) truncated_packet
  let frame = if ltb total (length bytes) then take total bytes else bytes
  parse_body fh (drop fh.header_size frame)

-- `GetResultCode`: none is `ok == false`.
unfoldable pub get_result_code : Packet → Option (ℕ × ℕ)
unfolding find_tlv
get_result_code p = elim (find_tlv p.tlvs 0x02) [
  | none ↦ none
  | some t ↦ if ltb (length t.value) 4 then none else some (u16_at t.value 0, u16_at t.value 2)
]

unfoldable pub is_success : Packet → Bool
unfolding get_result_code
is_success p = elim (get_result_code p) [ none ↦ false | some (result, code) ↦ result == 0 ]

pub record QmiError : Type 0 where
  pub service : ℕ
  pub message_id : ℕ
  pub result : ℕ
  pub error_code : ℕ

pub data CheckError : Type 0 where
  missing_result : CheckError
  qmi_error : QmiError → CheckError

unfoldable pub check_result : Packet → Option CheckError
unfolding get_result_code
check_result p = elim (get_result_code p) [
  | none ↦ some missing_result
  | some (result, code) ↦
      if result == 0
      then none
      else some (
          qmi_error (record {
            service = p.service_type;
            message_id = p.message_id;
            result = result;
            error_code = code;
          }))
]
