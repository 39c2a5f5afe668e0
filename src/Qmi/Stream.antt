-- ===== src/Qmi/Stream.antt =====
-- pkg/qmi/client.go, `readLoop`: how frames are cut out of the bytes that reads deliver.
pub mod Rounds
pub mod Chunks
pub mod Frames
use qmi_go.Base.{ℕ, zero, suc, ◌+◌, List, [], ◌∷◌, ◌++◌, Bool, true, false, ◌||◌, not}
use qmi_go.Base.{length, take, drop, ltb, ◌==◌, if◌then◌else◌}
use qmi_go.Base.Words.{byte_at, u16_at}
use qmi_go.Qmi.Header.{qmux_header_size}

abbrev pub is_marker : ℕ → Bool
is_marker b = b == 0x01 || b == 0x02

-- The bytes before the first marker are thrown away.
unfoldable pub skip_garbage : List ℕ → List ℕ
skip_garbage [] = []
skip_garbage (b ∷ rest) = if is_marker b then b ∷ rest else skip_garbage rest

-- One round of the inner loop: leave it, go round again, or hand a frame on and go round again.
-- Each carries the new `pending`.
pub data Round : Type 0 where
  stop : List ℕ → Round
  again : List ℕ → Round
  emit : List ℕ → List ℕ → Round

abbrev pub or_stop : List ℕ → Round
or_stop [] = stop []
or_stop (b ∷ rest) = again (b ∷ rest)

abbrev pub frame_size : List ℕ → ℕ
frame_size pending = 1 + u16_at pending 1

unfoldable pub round : List ℕ → Round
unfolding skip_garbage
round pending =
    if ltb (length pending) 3
    then stop pending
    else if not (is_marker (byte_at pending 0))
    then or_stop (skip_garbage pending)
    else if ltb (length pending) qmux_header_size
    then stop pending
    else if ltb (frame_size pending) qmux_header_size
    then again (drop 1 pending)
    else if ltb (length pending) (frame_size pending)
    then stop pending
    else emit (take (frame_size pending) pending) (drop (frame_size pending) pending)

-- The frames in their order, and what stays pending.
abbrev pub Drained : Type 0
Drained = List (List ℕ) × List ℕ

abbrev pub with_frame : List ℕ → Drained → Drained
with_frame frame (more, pending) = (frame ∷ more, pending)

abbrev pub follow : (List ℕ → Drained) → Round → Drained
follow go (stop pending) = ([], pending)
follow go (again pending) = go pending
follow go (emit frame pending) = with_frame frame (go pending)

-- The inner loop. A round that goes on has taken a byte at least.
unfoldable pub drain_loop : ℕ → List ℕ → Drained
drain_loop zero pending = ([], pending)
drain_loop (suc fuel) pending = follow (drain_loop fuel) (round pending)

unfoldable pub drain : List ℕ → Drained
unfolding drain_loop
drain pending = drain_loop (length pending) pending

-- One read: nothing happens on an empty one.
unfoldable pub feed : List ℕ → List ℕ → Drained
feed pending [] = ([], pending)
feed pending (b ∷ chunk) = drain (pending ++ (b ∷ chunk))

abbrev pub and_then : Drained → (List ℕ → Drained) → Drained
and_then (frames, pending) k = (frames ++ (k pending).0, (k pending).1)

-- A run of reads.
unfoldable pub feed_all : List ℕ → List (List ℕ) → Drained
unfolding feed
feed_all pending [] = ([], pending)
feed_all pending (chunk ∷ chunks) = and_then (feed pending chunk) (λ left. feed_all left chunks)

abbrev pub concat : List (List ℕ) → List ℕ
concat [] = []
concat (chunk ∷ chunks) = chunk ++ concat chunks
