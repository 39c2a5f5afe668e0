-- ===== src/Qmi/Stream/Frames.antt =====
-- Frames that stand one behind the other come out as they are.
use qmi_go.Base.{ℕ, ◌+◌, ◌≤◌, ◌<◌, ◌≡◌, refl, ap, ◌∙◌, arith, true, inl, inr}
use qmi_go.Base.{List, [], ◌∷◌, ◌++◌, append-nil, length, length-append, map}
use qmi_go.Base.{take-append, drop-append, All, ok, leb, Bool-cases}
use qmi_go.Base.Words.{byte_at}
use qmi_go.Qmi.Header.{marshal_frame_header}
use qmi_go.Qmi.Packet.{Packet, marshal_packet, marshal_body, unmarshal_packet}
use qmi_go.Qmi.Packet.RoundTrip.{
  IsSendable, received, unmarshal_packet-marshal_packet, length-marshal_body,
}
use qmi_go.Qmi.Stream.{
  is_marker, skip_garbage, emit, round, with_frame, drain, frame_size, feed_all, concat, Drained,
}
use qmi_go.Qmi.Stream.Rounds.{drain-round, round_whole}
use qmi_go.Qmi.Stream.Chunks.{feed_all-concat, first_kept, size_kept, drain_short}

-- A marker in front, a length field that tells the truth, and at least a QMUX header.
pub record IsFrame (frame : List ℕ) : Type 0 where
  pub long : 6 ≤ length frame
  pub marked : is_marker (byte_at frame 0) ≡ true
  pub sized : frame_size frame ≡ length frame

round-frame : (frame rest : List ℕ) → IsFrame frame → round (frame ++ rest) ≡ emit frame rest
round-frame frame rest f =
    let size = size_kept frame rest f.long f.marked in
    round_whole (frame ++ rest) (omega (arith, length-append frame rest, f.long))
      (first_kept frame rest f.long f.marked) (omega (arith, size, f.sized, f.long))
      (omega (arith, size, f.sized, length-append frame rest))
    ∙ rw
        (
          size,
          take-append (frame_size frame) frame rest f.sized,
          drop-append (frame_size frame) frame rest f.sized,
        )
        refl

pub drain-frame :
    (frame rest : List ℕ) → IsFrame frame → drain (frame ++ rest) ≡ with_frame frame (drain rest)
drain-frame frame rest f = drain-round (frame ++ rest) ∙ rw (round-frame frame rest f) refl

pub drain-concat :
    (frames : List (List ℕ)) → All IsFrame frames → drain (concat frames) ≡ (frames, [])
drain-concat [] h = drain_short [] (omega arith)
drain-concat (frame ∷ frames) h =
    drain-frame frame (concat frames) h.0 ∙ ap (with_frame frame) (drain-concat frames h.1)

-- Any body behind its frame header is a frame.
pub marshal_frame_header-IsFrame :
    (service client_id : ℕ) (body : List ℕ)
    → length body + 6 < 65536
    → IsFrame (marshal_frame_header service client_id (length body) ++ body)
unfolding marshal_frame_header
marshal_frame_header-IsFrame service client_id body h = elim (Bool-cases (leb service 0xff)) [
  | inl narrow ↦ rw narrow (record { long = omega arith; marked = refl; sized = ground arith })
  | inr wide ↦ rw wide (record { long = omega arith; marked = refl; sized = ground arith })
]

pub marshal_packet-IsFrame : (p : Packet) → IsSendable p → IsFrame (marshal_packet p)
unfolding marshal_packet
marshal_packet-IsFrame p s =
    marshal_frame_header-IsFrame p.service_type p.client_id (marshal_body p)
      (omega (arith, length-marshal_body p, s.total_fits))

marshal_packets-IsFrame :
    (ps : List Packet) → All IsSendable ps → All IsFrame (map marshal_packet ps)
marshal_packets-IsFrame [] h = tt
marshal_packets-IsFrame (p ∷ ps) h = (marshal_packet-IsFrame p h.0, marshal_packets-IsFrame ps h.1)

unmarshal_packets :
    (ps : List Packet)
    → All IsSendable ps
    → map unmarshal_packet (map marshal_packet ps) ≡ map (λ p. ok (received p)) ps
unmarshal_packets [] h = refl
unmarshal_packets (p ∷ ps) h =
    rw
      (
        rw (append-nil (marshal_packet p)) at (unmarshal_packet-marshal_packet p [] h.0),
        unmarshal_packets ps h.1,
      )
      refl

-- Messages that are written one behind the other arrive, however the reads split the bytes: the
-- frames are the marshalled messages in their order, each parses to the message that was sent, and
-- no frame is left over in what stays pending.
pub feed_all-marshal_packet :
    (ps : List Packet) (chunks : List (List ℕ))
    → All IsSendable ps
    → concat chunks ≡ concat (map marshal_packet ps)
    → ((feed_all [] chunks).0 ≡ map marshal_packet ps)
      × (map unmarshal_packet (feed_all [] chunks).0 ≡ map (λ p. ok (received p)) ps)
      × (skip_garbage (feed_all [] chunks).1 ≡ [])
feed_all-marshal_packet ps chunks h e =
    let whole = ap drain e ∙ drain-concat (map marshal_packet ps) (marshal_packets-IsFrame ps h) in
    let split = feed_all-concat chunks in
    let frames = split.0 ∙ ap (λ (d : Drained). d.0) whole in
    (
      frames,
      ap (map unmarshal_packet) frames ∙ unmarshal_packets ps h,
      split.1 ∙ ap (λ (d : Drained). skip_garbage d.1) whole ∙ unfold skip_garbage in refl,
    )
