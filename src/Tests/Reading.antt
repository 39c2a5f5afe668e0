-- ===== src/Tests/Reading.antt =====
-- The read loop of pkg/qmi/client.go.
use qmi_go.Base.{ℕ, ◌≡◌, refl, arith, false, ok, List, [], ◌∷◌, map}
use qmi_go.Qmi.Packet.{Packet, marshal_packet, unmarshal_packet}
use qmi_go.Qmi.Packet.RoundTrip.{IsSendable, received}
use qmi_go.Qmi.Tlv.{marshal_tlvs}
use qmi_go.Qmi.Stream.{drain, drain_loop, round, skip_garbage, feed_all}
use qmi_go.Qmi.Stream.Chunks.{Agree, feed_all-concat}
use qmi_go.Qmi.Stream.Frames.{feed_all-marshal_packet}

-- Garbage, a length that is too small, a frame of seven bytes, and the start of another.
abbrev noisy : List ℕ
noisy = 9 ∷ 8 ∷ 1 ∷ 4 ∷ 0 ∷ 9 ∷ 1 ∷ 6 ∷ 0 ∷ 0 ∷ 2 ∷ 3 ∷ 4 ∷ 1 ∷ 7 ∷ []

drain-noisy : drain noisy ≡ ((1 ∷ 6 ∷ 0 ∷ 0 ∷ 2 ∷ 3 ∷ 4 ∷ []) ∷ [], 1 ∷ 7 ∷ [])
unfolding drain drain_loop round skip_garbage
drain-noisy = refl

abbrev noisy_chunks : List (List ℕ)
noisy_chunks =
    (9 ∷ []) ∷ [] ∷ (8 ∷ 1 ∷ 4 ∷ 0 ∷ 9 ∷ 1 ∷ 6 ∷ []) ∷ (0 ∷ 0 ∷ 2 ∷ 3 ∷ 4 ∷ 1 ∷ 7 ∷ []) ∷ []

feed_all-concat_example : Agree (feed_all [] noisy_chunks) (drain noisy)
feed_all-concat_example = feed_all-concat noisy_chunks

abbrev sync_request : Packet
sync_request = record {
  service_type = 0;
  client_id = 0;
  transaction_id = 1;
  message_id = 0x27;
  is_indication = false;
  tlvs = [];
}

sync-IsSendable : IsSendable sync_request
unfolding marshal_tlvs
sync-IsSendable = record {
  service_fits = omega arith;
  transaction_fits = omega arith;
  message_fits = omega arith;
  values_fit = tt;
  total_fits = omega arith;
}

-- Two requests of twelve bytes, in pieces of one byte, none, and the rest.
abbrev sync_chunks : List (List ℕ)
sync_chunks =
    (0x01 ∷ [])
    ∷ []
    ∷ (11 ∷ 0 ∷ 0 ∷ 0 ∷ 0 ∷ 0 ∷ 1 ∷ 0x27 ∷ 0 ∷ 0 ∷ 0 ∷ 0x01 ∷ 11 ∷ 0 ∷ 0 ∷ 0 ∷ 0 ∷ 0 ∷ 1 ∷ 0x27 ∷ 0
        ∷ 0 ∷ 0 ∷ [])
    ∷ []

feed_all-marshal_packet_example :
    ((feed_all [] sync_chunks).0 ≡ map marshal_packet (sync_request ∷ sync_request ∷ []))
    × (map unmarshal_packet (feed_all [] sync_chunks).0
        ≡ map (λ p. ok (received p)) (sync_request ∷ sync_request ∷ []))
    × (skip_garbage (feed_all [] sync_chunks).1 ≡ [])
unfolding marshal_packet qmi_go.Qmi.Packet.marshal_body qmi_go.Qmi.Header.marshal_frame_header
    qmi_go.Qmi.Header.marshal_qmux_header qmi_go.Qmi.Header.marshal_ctl_header marshal_tlvs
feed_all-marshal_packet_example =
    feed_all-marshal_packet (sync_request ∷ sync_request ∷ []) sync_chunks
      (sync-IsSendable, (sync-IsSendable, tt)) refl
