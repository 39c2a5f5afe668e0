-- ===== src/Qmi/Header/RoundTrip.antt =====
-- Headers read back what was written, whatever bytes follow.
use qmi_go.Base.{ℕ, ◌+◌, ◌<◌, ◌≡◌, List, ◌++◌, arith, leb, if◌then◌else◌}
use qmi_go.Base.{ok}
use qmi_go.Base.Words.{IsU16}
use qmi_go.Qmi.Header.{
  FrameHeader, CtlHeader, ServiceHeader, marshal_frame_header, unmarshal_frame_header,
  marshal_ctl_header, unmarshal_ctl_header, marshal_service_header, unmarshal_service_header,
}

-- The header that a reader sees in front of a body of `body_len` bytes.
abbrev pub expected_header : ℕ → ℕ → ℕ → FrameHeader
expected_header service client_id body_len = record {
  header_size = if leb service 0xff then 6 else 7;
  frame_length = if leb service 0xff then body_len + 5 else body_len + 6;
  control_flags = 0;
  service_type = service;
  client_id = client_id;
}

-- A marshalled frame header reads back as the service and client it was made for, with the length
-- of the body, for every 16-bit service and every body that leaves room for the length field.
pub unmarshal_frame_header-marshal :
    (service client_id body_len : ℕ) (rest : List ℕ)
    → IsU16 service
    → body_len + 6 < 65536
    → unmarshal_frame_header (marshal_frame_header service client_id body_len ++ rest)
      ≡ ok (expected_header service client_id body_len)
unfolding marshal_frame_header unmarshal_frame_header
unmarshal_frame_header-marshal service client_id body_len rest hs hb = ground arith

pub unmarshal_ctl_header-marshal :
    (h : CtlHeader) (rest : List ℕ)
    → IsU16 h.message_id
    → IsU16 h.tlv_length
    → unmarshal_ctl_header (marshal_ctl_header h ++ rest) ≡ ok h
unfolding marshal_ctl_header unmarshal_ctl_header
unmarshal_ctl_header-marshal h rest hm hl = ground arith

pub unmarshal_service_header-marshal :
    (h : ServiceHeader) (rest : List ℕ)
    → IsU16 h.transaction_id
    → IsU16 h.message_id
    → IsU16 h.tlv_length
    → unmarshal_service_header (marshal_service_header h ++ rest) ≡ ok h
unfolding marshal_service_header unmarshal_service_header
unmarshal_service_header-marshal h rest ht hm hl = ground arith
