-- ===== src/Qmi/Packet/RoundTrip.antt =====
-- A marshalled message reads back.
use qmi_go.Base.{ℕ, ◌+◌, ◌%◌, ◌≤◌, ◌<◌, ◌≡◌, refl, ◌∙◌, sym, arith, false}
use qmi_go.Base.{List, [], ◌++◌, append_assoc, append-nil, length, take, length-append}
use qmi_go.Base.{take-append, drop-append, take_all, All, ok, none, ltb}
use qmi_go.Base.{◌==◌, not, bit_and, if◌then◌else◌, inl, inr, Bool-cases, ltb_false→le}
use qmi_go.Base.Words.{IsU16}
use qmi_go.Qmi.Header.{
  FrameHeader, CtlHeader, ServiceHeader, marshal_frame_header, marshal_ctl_header,
  marshal_service_header, unmarshal_frame_header,
}
use qmi_go.Qmi.Header.RoundTrip.{
  expected_header, unmarshal_frame_header-marshal, unmarshal_ctl_header-marshal,
  unmarshal_service_header-marshal,
}
use qmi_go.Qmi.Tlv.{Tlv, marshal_tlvs, parse_tlvs, all_zero}
use qmi_go.Qmi.Tlv.RoundTrip.{Fits, parse_tlvs-marshal_tlvs}
use qmi_go.Qmi.Packet.{
  Packet, service_control, marshal_body, marshal_packet, parse_ctl_body, parse_service_body,
  parse_body, unmarshal_packet,
}

-- A message whose fields fit their wire fields; with the headers, the whole frame has at most
-- 65535 bytes.
pub record IsSendable (p : Packet) : Type 0 where
  pub service_fits : IsU16 p.service_type
  pub transaction_fits : IsU16 p.transaction_id
  pub message_fits : IsU16 p.message_id
  pub values_fit : All Fits p.tlvs
  pub total_fits : length (marshal_tlvs p.tlvs) < 65520

-- What a receiver sees: CTL has one byte of transaction number, and a request is no indication.
abbrev pub received : Packet → Packet
received p = record p {
  transaction_id =
      if p.service_type == service_control then p.transaction_id % 256 else p.transaction_id;
  is_indication = false;
}

pub parse_tlvs-marshal_self :
    (ts : List Tlv) → All Fits ts → parse_tlvs (marshal_tlvs ts) ≡ (ts, none)
parse_tlvs-marshal_self ts h =
    rw (append-nil (marshal_tlvs ts)) at
      (parse_tlvs-marshal_tlvs ts [] h (omega arith) (unfold all_zero in refl))

pub length-marshal_ctl_header : (h : CtlHeader) → length (marshal_ctl_header h) ≡ 6
unfolding marshal_ctl_header
length-marshal_ctl_header h = refl

pub length-marshal_service_header : (h : ServiceHeader) → length (marshal_service_header h) ≡ 7
unfolding marshal_service_header
length-marshal_service_header h = refl

-- A body that is a header in front of entries, for the flags of any sender.
pub parse_ctl_body-header :
    (fh : FrameHeader) (h : CtlHeader) (bytes : List ℕ) (ts : List Tlv)
    → h.tlv_length ≡ length bytes
    → IsU16 h.message_id
    → IsU16 h.tlv_length
    → parse_tlvs bytes ≡ (ts, none)
    → parse_ctl_body fh (marshal_ctl_header h ++ bytes)
      ≡ ok (record {
        service_type = fh.service_type;
        client_id = fh.client_id;
        transaction_id = h.transaction_id;
        message_id = h.message_id;
        is_indication = not (bit_and h.control_flags 0x02 == 0);
        tlvs = ts;
      })
unfolding parse_ctl_body
parse_ctl_body-header fh h bytes ts len hm hl parsed = ground (
  arith,
  unmarshal_ctl_header-marshal h bytes hm hl,
  drop-append 6 (marshal_ctl_header h) bytes (unfold marshal_ctl_header in refl),
  length-append (marshal_ctl_header h) bytes,
  length-marshal_ctl_header h,
  take_all h.tlv_length bytes,
)

pub parse_service_body-header :
    (fh : FrameHeader) (h : ServiceHeader) (bytes : List ℕ) (ts : List Tlv)
    → h.tlv_length ≡ length bytes
    → IsU16 h.transaction_id
    → IsU16 h.message_id
    → IsU16 h.tlv_length
    → parse_tlvs bytes ≡ (ts, none)
    → parse_service_body fh (marshal_service_header h ++ bytes)
      ≡ ok (record {
        service_type = fh.service_type;
        client_id = fh.client_id;
        transaction_id = h.transaction_id;
        message_id = h.message_id;
        is_indication = not (bit_and h.control_flags 0x04 == 0);
        tlvs = ts;
      })
unfolding parse_service_body
parse_service_body-header fh h bytes ts len ht hm hl parsed = ground (
  arith,
  unmarshal_service_header-marshal h bytes ht hm hl,
  drop-append 7 (marshal_service_header h) bytes (unfold marshal_service_header in refl),
  length-append (marshal_service_header h) bytes,
  length-marshal_service_header h,
  take_all h.tlv_length bytes,
)

pub length-marshal_body : (p : Packet) → length (marshal_body p) ≤ 7 + length (marshal_tlvs p.tlvs)
unfolding marshal_body marshal_ctl_header marshal_service_header
length-marshal_body p = ground arith

parse_body-marshal_body :
    (fh : FrameHeader) (p : Packet)
    → IsSendable p
    → fh.service_type ≡ p.service_type
    → fh.client_id ≡ p.client_id
    → parse_body fh (marshal_body p) ≡ ok (received p)
unfolding parse_body marshal_body
parse_body-marshal_body fh p s hs hc = elim (Bool-cases (p.service_type == service_control)) [
  | inl ctl ↦ ground (
    arith,
    parse_ctl_body-header fh
        (record {
          control_flags = 0x00;
          transaction_id = p.transaction_id % 256;
          message_id = p.message_id;
          tlv_length = length (marshal_tlvs p.tlvs) % 65536;
        })
        (marshal_tlvs p.tlvs) p.tlvs,
    parse_tlvs-marshal_self p.tlvs s.values_fit,
  )
  | inr other ↦ ground (
    arith,
    parse_service_body-header fh
        (record {
          control_flags = 0x00;
          transaction_id = p.transaction_id;
          message_id = p.message_id;
          tlv_length = length (marshal_tlvs p.tlvs) % 65536;
        })
        (marshal_tlvs p.tlvs) p.tlvs,
    parse_tlvs-marshal_self p.tlvs s.values_fit,
  )
]

pub length-marshal_frame_header :
    (service client_id n : ℕ)
    → length (marshal_frame_header service client_id n)
      ≡ (expected_header service client_id n).header_size
unfolding marshal_frame_header
length-marshal_frame_header service client_id n = ground arith

pub length-marshal_frame_header_le :
    (service client_id n : ℕ) → length (marshal_frame_header service client_id n) ≤ 7
unfolding marshal_frame_header
length-marshal_frame_header_le service client_id n = ground arith

-- `if len(data) > n { data = data[:n] }`
pub cut_take : (n : ℕ) (xs : List ℕ) → (if ltb n (length xs) then take n xs else xs) ≡ take n xs
cut_take n xs = elim (Bool-cases (ltb n (length xs))) [
  | inl more ↦ rw more refl
  | inr none_left ↦ rw none_left (sym (take_all n xs (ltb_false→le n (length xs) none_left)))
]

unmarshal_packet_cut :
    (fh : FrameHeader) (header body rest : List ℕ)
    → fh.header_size ≡ length header
    → fh.frame_length + 1 ≡ length header + length body
    → unmarshal_frame_header ((header ++ body) ++ rest) ≡ ok fh
    → unmarshal_packet ((header ++ body) ++ rest) ≡ parse_body fh body
unfolding unmarshal_packet
unmarshal_packet_cut fh header body rest hs hl e = ground (
  arith,
  e,
  length-append header body,
  length-append (header ++ body) rest,
  cut_take (fh.frame_length + 1) ((header ++ body) ++ rest),
  take-append (fh.frame_length + 1) (header ++ body) rest,
  drop-append fh.header_size header body hs,
)

-- A frame that says its own length, with anything behind it, is cut at that length.
pub unmarshal_packet-frame :
    (service client_id : ℕ) (body rest : List ℕ)
    → IsU16 service
    → length body + 6 < 65536
    → unmarshal_packet ((marshal_frame_header service client_id (length body) ++ body) ++ rest)
      ≡ parse_body (expected_header service client_id (length body)) body
unmarshal_packet-frame service client_id body rest hs hb =
    let n = length-marshal_frame_header service client_id (length body) in
    unmarshal_packet_cut _ (marshal_frame_header service client_id (length body)) body rest (sym n)
      (ground (arith, n))
      (rw (append_assoc (marshal_frame_header service client_id (length body)) body rest)
        (unmarshal_frame_header-marshal service client_id (length body) (body ++ rest) hs hb))

-- Every sendable message, with any bytes behind it, reads back as sent: same service, client,
-- message and entries, the transaction number (its low byte for CTL), and not as an indication.
pub unmarshal_packet-marshal_packet :
    (p : Packet) (rest : List ℕ)
    → IsSendable p
    → unmarshal_packet (marshal_packet p ++ rest) ≡ ok (received p)
unfolding marshal_packet
unmarshal_packet-marshal_packet p rest s =
    unmarshal_packet-frame p.service_type p.client_id (marshal_body p) rest s.service_fits
      (omega (arith, length-marshal_body p, s.total_fits))
    ∙ parse_body-marshal_body _ p s refl refl
