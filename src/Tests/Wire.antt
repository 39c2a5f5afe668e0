-- ===== src/Tests/Wire.antt =====
-- Messages, entries and headers of pkg/qmi/frame.go and pkg/qmi/ctl.go.
use qmi_go.Base.{ℕ, ◌≡◌, refl, arith, false, ok, List, [], ◌∷◌, ◌++◌}
use qmi_go.Qmi.Header.{marshal_frame_header, marshal_qmux_header, unmarshal_frame_header}
use qmi_go.Qmi.Tlv.{Tlv, marshal_tlvs, unmarshal_tlv, parse_tlvs, parse_tlvs_loop, all_zero}
use qmi_go.Qmi.Tlv.Sound.{Reads, parse_tlvs-Reads}
use qmi_go.Qmi.Packet.{Packet, marshal_packet, marshal_body, unmarshal_packet}
use qmi_go.Qmi.Packet.RoundTrip.{IsSendable, received, unmarshal_packet-marshal_packet}

abbrev mode_tlv : Tlv
mode_tlv = record { tag = 0x01; value = 7 ∷ 9 ∷ [] }

-- A DMS request, and a message to IMSDCM, whose service number has sixteen bits.
abbrev dms_request : Packet
dms_request = record {
  service_type = 0x02;
  client_id = 3;
  transaction_id = 0x1234;
  message_id = 0x2d;
  is_indication = false;
  tlvs = mode_tlv ∷ [];
}

marshal_dms :
    marshal_packet dms_request
    ≡ 0x01 ∷ 17 ∷ 0 ∷ 0 ∷ 2 ∷ 3 ∷ 0 ∷ 0x34 ∷ 0x12 ∷ 0x2d ∷ 0 ∷ 5 ∷ 0 ∷ 1 ∷ 2 ∷ 0 ∷ 7 ∷ 9 ∷ []
unfolding marshal_packet marshal_body marshal_frame_header marshal_tlvs
    qmi_go.Qmi.Header.marshal_service_header
marshal_dms = refl

dms-IsSendable : IsSendable dms_request
unfolding marshal_tlvs
dms-IsSendable = record {
  service_fits = omega arith;
  transaction_fits = omega arith;
  message_fits = omega arith;
  values_fit = omega arith;
  total_fits = omega arith;
}

unmarshal_packet-marshal_packet_example :
    unmarshal_packet (marshal_packet dms_request ++ (0xff ∷ [])) ≡ ok (received dms_request)
unmarshal_packet-marshal_packet_example =
    unmarshal_packet-marshal_packet dms_request (0xff ∷ []) dms-IsSendable

-- The second entry says four bytes and has one.
abbrev cut_bytes : List ℕ
cut_bytes = 1 ∷ 2 ∷ 0 ∷ 7 ∷ 9 ∷ 2 ∷ 4 ∷ 0 ∷ 8 ∷ []

parse_cut : (parse_tlvs cut_bytes).0 ≡ mode_tlv ∷ []
unfolding parse_tlvs parse_tlvs_loop unmarshal_tlv all_zero
parse_cut = refl

parse_tlvs-Reads_example : Reads cut_bytes (parse_tlvs cut_bytes)
parse_tlvs-Reads_example = parse_tlvs-Reads cut_bytes (omega arith)
