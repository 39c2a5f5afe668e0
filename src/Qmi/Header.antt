-- ===== src/Qmi/Header.antt =====
-- pkg/qmi/frame.go: the outer frame headers (QMUX and QRTR virtual) and the two message headers.
-- A byte slice is a list of numbers; each read stands behind the length test of its function.
pub mod RoundTrip
use qmi_go.Base.{ℕ, ◌+◌, ◌%◌, List, [], ◌∷◌, length, ltb, leb, ◌==◌, if◌then◌else◌}
use qmi_go.Base.{Result, ok, err, ◌>>=◌, ◌>>◌, guard}
use qmi_go.Base.Words.{byte_at, u16_at, low_byte, high_byte}

-- What `UnmarshalPacket` and the functions below it refuse, a constructor for each message.
pub data ParseError : Type 0 where
  short_frame bad_marker short_qmux short_qrtr short_ctl short_service : ParseError
  bad_length truncated_packet truncated_tlvs short_tlv truncated_tlv : ParseError

pub record QmuxHeader : Type 0 where
  pub if_type : ℕ
  pub frame_length : ℕ
  pub control_flags : ℕ
  pub service_type : ℕ
  pub client_id : ℕ

abbrev pub qmux_header_size : ℕ
qmux_header_size = 6

unfoldable pub marshal_qmux_header : QmuxHeader → List ℕ
marshal_qmux_header h =
    0x01
    ∷ low_byte h.frame_length
    ∷ high_byte h.frame_length
    ∷ h.control_flags
    ∷ h.service_type
    ∷ h.client_id
    ∷ []

unfoldable pub unmarshal_qmux_header : List ℕ → Result ParseError QmuxHeader
unmarshal_qmux_header bytes = do
  guard (leb qmux_header_size (length bytes)) short_qmux
  guard (byte_at bytes 0 == 0x01) bad_marker
  ok (record {
    if_type = byte_at bytes 0;
    frame_length = u16_at bytes 1;
    control_flags = byte_at bytes 3;
    service_type = byte_at bytes 4;
    client_id = byte_at bytes 5;
  })

pub record QrtrVirtualHeader : Type 0 where
  pub if_type : ℕ
  pub frame_length : ℕ
  pub control_flags : ℕ
  pub service_type : ℕ
  pub client_id : ℕ

abbrev pub qrtr_header_size : ℕ
qrtr_header_size = 7

unfoldable pub marshal_qrtr_header : QrtrVirtualHeader → List ℕ
marshal_qrtr_header h =
    0x02
    ∷ low_byte h.frame_length
    ∷ high_byte h.frame_length
    ∷ h.control_flags
    ∷ low_byte h.service_type
    ∷ high_byte h.service_type
    ∷ h.client_id
    ∷ []

unfoldable pub unmarshal_qrtr_header : List ℕ → Result ParseError QrtrVirtualHeader
unmarshal_qrtr_header bytes = do
  guard (leb qrtr_header_size (length bytes)) short_qrtr
  guard (byte_at bytes 0 == 0x02) bad_marker
  ok (record {
    if_type = byte_at bytes 0;
    frame_length = u16_at bytes 1;
    control_flags = byte_at bytes 3;
    service_type = u16_at bytes 4;
    client_id = byte_at bytes 6;
  })

-- `uint16(bodyLen + 5)` and `uint16(bodyLen + 6)` wrap.
unfoldable pub marshal_frame_header : ℕ → ℕ → ℕ → List ℕ
unfolding marshal_qmux_header marshal_qrtr_header
marshal_frame_header service client_id body_len =
    if leb service 0xff
    then marshal_qmux_header (record {
      if_type = 0x01;
      frame_length = (body_len + 5) % 65536;
      control_flags = 0x00;
      service_type = service % 256;
      client_id = client_id;
    })
    else marshal_qrtr_header (record {
      if_type = 0x02;
      frame_length = (body_len + 6) % 65536;
      control_flags = 0x00;
      service_type = service;
      client_id = client_id;
    })

pub record FrameHeader : Type 0 where
  pub header_size : ℕ
  pub frame_length : ℕ
  pub control_flags : ℕ
  pub service_type : ℕ
  pub client_id : ℕ

abbrev from_qmux : QmuxHeader → FrameHeader
from_qmux h = record {
  header_size = qmux_header_size;
  frame_length = h.frame_length;
  control_flags = h.control_flags;
  service_type = h.service_type;
  client_id = h.client_id;
}

abbrev from_qrtr : QrtrVirtualHeader → FrameHeader
from_qrtr h = record {
  header_size = qrtr_header_size;
  frame_length = h.frame_length;
  control_flags = h.control_flags;
  service_type = h.service_type;
  client_id = h.client_id;
}

-- The two header parsers joined: the first byte chooses.
unfoldable pub unmarshal_frame_header : List ℕ → Result ParseError FrameHeader
unfolding unmarshal_qmux_header unmarshal_qrtr_header
unmarshal_frame_header bytes =
    if ltb (length bytes) 1
    then err short_frame
    else if byte_at bytes 0 == 0x01
    then (do h ← unmarshal_qmux_header bytes; ok (from_qmux h))
    else if byte_at bytes 0 == 0x02
    then (do h ← unmarshal_qrtr_header bytes; ok (from_qrtr h))
    else err bad_marker

pub record CtlHeader : Type 0 where
  pub control_flags : ℕ
  pub transaction_id : ℕ
  pub message_id : ℕ
  pub tlv_length : ℕ

abbrev pub ctl_header_size : ℕ
ctl_header_size = 6

unfoldable pub marshal_ctl_header : CtlHeader → List ℕ
marshal_ctl_header h =
    h.control_flags
    ∷ h.transaction_id
    ∷ low_byte h.message_id
    ∷ high_byte h.message_id
    ∷ low_byte h.tlv_length
    ∷ high_byte h.tlv_length
    ∷ []

unfoldable pub unmarshal_ctl_header : List ℕ → Result ParseError CtlHeader
unmarshal_ctl_header bytes = do
  guard (leb ctl_header_size (length bytes)) short_ctl
  ok (record {
    control_flags = byte_at bytes 0;
    transaction_id = byte_at bytes 1;
    message_id = u16_at bytes 2;
    tlv_length = u16_at bytes 4;
  })

pub record ServiceHeader : Type 0 where
  pub control_flags : ℕ
  pub transaction_id : ℕ
  pub message_id : ℕ
  pub tlv_length : ℕ

abbrev pub service_header_size : ℕ
service_header_size = 7

unfoldable pub marshal_service_header : ServiceHeader → List ℕ
marshal_service_header h =
    h.control_flags
    ∷ low_byte h.transaction_id
    ∷ high_byte h.transaction_id
    ∷ low_byte h.message_id
    ∷ high_byte h.message_id
    ∷ low_byte h.tlv_length
    ∷ high_byte h.tlv_length
    ∷ []

unfoldable pub unmarshal_service_header : List ℕ → Result ParseError ServiceHeader
unmarshal_service_header bytes = do
  guard (leb service_header_size (length bytes)) short_service
  ok (record {
    control_flags = byte_at bytes 0;
    transaction_id = u16_at bytes 1;
    message_id = u16_at bytes 3;
    tlv_length = u16_at bytes 5;
  })
