-- ===== src/Qmi/Tlv.antt =====
-- pkg/qmi/frame.go: type-length-value entries, alone and in sequence.
pub mod Fuel
pub mod RoundTrip
pub mod Sound
use qmi_go.Base.{ℕ, zero, suc, ◌+◌, ◌-◌, List, [], ◌∷◌, ◌++◌, Bool, true, false, ◌&&◌}
use qmi_go.Base.{length, take, drop, ltb, leb, ◌==◌, if◌then◌else◌, Option, none, some}
use qmi_go.Base.{Result, ok, err, ◌>>=◌, ◌>>◌, guard}
use qmi_go.Base.Words.{byte_at, u16_at, low_byte, high_byte}
use qmi_go.Qmi.Header.{ParseError, short_tlv, truncated_tlv}

pub record Tlv : Type 0 where
  pub tag : ℕ
  pub value : List ℕ

abbrev pub tlv_header_size : ℕ
tlv_header_size = 3

-- `uint16(len(t.Value))` keeps the low two bytes of the length.
unfoldable pub marshal_tlv : Tlv → List ℕ
marshal_tlv t = t.tag ∷ low_byte (length t.value) ∷ high_byte (length t.value) ∷ t.value

-- The entry, and how many bytes it took.
unfoldable pub unmarshal_tlv : List ℕ → Result ParseError (Tlv × ℕ)
unmarshal_tlv bytes = do
  guard (leb tlv_header_size (length bytes)) short_tlv
  let size = u16_at bytes 1
  guard (leb (tlv_header_size + size) (length bytes)) truncated_tlv
  ok (
    record { tag = byte_at bytes 0; value = take size (drop tlv_header_size bytes) },
    tlv_header_size + size,
  )

unfoldable pub all_zero : List ℕ → Bool
all_zero [] = true
all_zero (b ∷ rest) = b == 0x00 && all_zero rest

-- Go returns the entries read so far beside the error.
abbrev pub ParsedTlvs : Type 0
ParsedTlvs = List Tlv × Option ParseError

abbrev pub prepend : Tlv → ParsedTlvs → ParsedTlvs
prepend t (more, e) = (t ∷ more, e)

-- One round of the loop at a non-empty rest, where `go` parses what is left.
abbrev parse_round : (List ℕ → ParsedTlvs) → List ℕ → ParsedTlvs
parse_round go bytes =
    if ltb (length bytes) tlv_header_size && all_zero bytes
    then ([], none)
    else elim (unmarshal_tlv bytes) [
      | err e ↦ ([], some e)
      | ok (t, consumed) ↦ prepend t (go (drop consumed bytes))
    ]

-- The list is `data[offset:]`. Every round but the last takes three bytes or more.
unfoldable pub parse_tlvs_loop : ℕ → List ℕ → ParsedTlvs
parse_tlvs_loop fuel [] = ([], none)
parse_tlvs_loop zero (b ∷ rest) = ([], none)
parse_tlvs_loop (suc fuel) (b ∷ rest) = parse_round (parse_tlvs_loop fuel) (b ∷ rest)

unfoldable pub parse_tlvs : List ℕ → ParsedTlvs
unfolding parse_tlvs_loop
parse_tlvs bytes = parse_tlvs_loop (length bytes) bytes

unfoldable pub find_tlv : List Tlv → ℕ → Option Tlv
find_tlv [] tag = none
find_tlv (t ∷ rest) tag = if t.tag == tag then some t else find_tlv rest tag

-- `tlvBytes` of `Packet.Marshal`.
unfoldable pub marshal_tlvs : List Tlv → List ℕ
unfolding marshal_tlv
marshal_tlvs [] = []
marshal_tlvs (t ∷ rest) = marshal_tlv t ++ marshal_tlvs rest
