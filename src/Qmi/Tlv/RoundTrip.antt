-- ===== src/Qmi/Tlv/RoundTrip.antt =====
-- What `marshal_tlvs` writes, `parse_tlvs` reads back.
use qmi_go.Base.{ℕ, ◌+◌, ◌*◌, ◌<◌, ◌≡◌, refl, ap, ◌∙◌, arith, true}
use qmi_go.Base.{List, [], ◌∷◌, ◌++◌, append_assoc, length, length-append}
use qmi_go.Base.{take-append, drop-append, All, ok, none}
use qmi_go.Base.Words.{low_byte, high_byte, u16_bytes}
use qmi_go.Qmi.Tlv.{Tlv, prepend, parse_tlvs, unmarshal_tlv, marshal_tlv, marshal_tlvs, all_zero}
use qmi_go.Qmi.Tlv.Fuel.{parse_tlvs_round}

-- The length field has sixteen bits.
abbrev pub Fits : Tlv → Type 0
Fits t = length t.value < 65536

pub length-marshal_tlv : (t : Tlv) → length (marshal_tlv t) ≡ 3 + length t.value
unfolding marshal_tlv
length-marshal_tlv t = omega arith

-- One entry reads back, and takes exactly the bytes that were written.
pub unmarshal_tlv-marshal_tlv :
    (t : Tlv) (rest : List ℕ)
    → Fits t
    → unmarshal_tlv (marshal_tlv t ++ rest) ≡ ok (t, length (marshal_tlv t))
unfolding unmarshal_tlv marshal_tlv
unmarshal_tlv-marshal_tlv t rest h = ground (
  arith,
  u16_bytes (length t.value) h,
  length-append t.value rest,
  take-append (low_byte (length t.value) + 256 * high_byte (length t.value)) t.value rest
      (omega arith),
)

parse_tlvs_pad : (pad : List ℕ) → length pad < 3 → all_zero pad ≡ true → parse_tlvs pad ≡ ([], none)
unfolding parse_tlvs
parse_tlvs_pad [] h z = refl
parse_tlvs_pad (b ∷ rest) h z = ground arith

-- One entry in front of more bytes.
pub parse_tlvs-marshal_tlv :
    (t : Tlv) (rest : List ℕ)
    → Fits t
    → parse_tlvs (marshal_tlv t ++ rest) ≡ prepend t (parse_tlvs rest)
unfolding marshal_tlv
parse_tlvs-marshal_tlv t rest h = ground (
  arith,
  parse_tlvs_round t.tag
      (low_byte (length t.value) ∷ high_byte (length t.value) ∷ (t.value ++ rest)),
  unmarshal_tlv-marshal_tlv t rest h,
  drop-append (length t.value) t.value rest refl,
)

-- Every list of entries whose values fit the length field reads back whole, also with one or two
-- zero bytes of padding behind it.
pub parse_tlvs-marshal_tlvs :
    (ts : List Tlv) (pad : List ℕ)
    → All Fits ts
    → length pad < 3
    → all_zero pad ≡ true
    → parse_tlvs (marshal_tlvs ts ++ pad) ≡ (ts, none)
unfolding marshal_tlvs
parse_tlvs-marshal_tlvs [] pad h hp z = parse_tlvs_pad pad hp z
parse_tlvs-marshal_tlvs (t ∷ ts) pad h hp z =
    rw (append_assoc (marshal_tlv t) (marshal_tlvs ts) pad) (
      parse_tlvs-marshal_tlv t (marshal_tlvs ts ++ pad) h.0
      ∙ ap (prepend t) (parse_tlvs-marshal_tlvs ts pad h.1 hp z))
