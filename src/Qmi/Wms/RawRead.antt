-- ===== src/Qmi/Wms/RawRead.antt =====
-- The two forms of a stored message: format, length and data, with the tag in front or without.
use qmi_go.Base.{ℕ, ◌+◌, ◌*◌, ◌≤◌, ◌<◌, ◌≡◌, arith, List, ◌∷◌, ◌++◌, true, false, length}
use qmi_go.Base.{take-append, take_all, length-append, ok}
use qmi_go.Base.Words.{IsU16, low_byte, high_byte, u16_bytes}
use qmi_go.Qmi.Wms.{is_known_message_tag_type}
use qmi_go.Qmi.Wms.Responses.{parse_raw_read_message_value}

abbrev pub untagged_value : ℕ → List ℕ → List ℕ
untagged_value format pdu = format ∷ low_byte (length pdu) ∷ high_byte (length pdu) ∷ pdu

parse-untagged :
    (format : ℕ) (pdu rest : List ℕ)
    → IsU16 (length pdu)
    → parse_raw_read_message_value (untagged_value format pdu ++ rest)
      ≡ ok (record { tag = 0; has_tag = false; content = pdu })
unfolding parse_raw_read_message_value
parse-untagged format pdu rest h = ground (
  arith,
  u16_bytes (length pdu) h,
  length-append pdu rest,
  take-append (low_byte (length pdu) + 256 * high_byte (length pdu)) pdu rest (omega arith),
)

-- The first attempt reads the length one byte too early, and takes it for too long.
parse-tagged :
    (tag format : ℕ) (pdu : List ℕ)
    → is_known_message_tag_type tag ≡ true
    → 1 ≤ length pdu
    → length pdu < 256
    → parse_raw_read_message_value (tag ∷ untagged_value format pdu)
      ≡ ok (record { tag = tag; has_tag = true; content = pdu })
unfolding parse_raw_read_message_value
parse-tagged tag format pdu known some_byte short =
    let h : low_byte (length pdu) ≡ length pdu = omega arith in
    let z : high_byte (length pdu) ≡ 0 = omega arith in
    ground (arith, h, z, known, take_all (length pdu) pdu (omega arith))

-- A message of 1 to 255 bytes is read in both forms: without a tag in front, whatever follows it,
-- and with a known one in front, with the tag.
pub parse_raw_read-both_forms :
    (tag format : ℕ) (pdu rest : List ℕ)
    → is_known_message_tag_type tag ≡ true
    → 1 ≤ length pdu
    → length pdu < 256
    → (parse_raw_read_message_value (untagged_value format pdu ++ rest)
        ≡ ok (record { tag = 0; has_tag = false; content = pdu }))
      × (parse_raw_read_message_value (tag ∷ untagged_value format pdu)
          ≡ ok (record { tag = tag; has_tag = true; content = pdu }))
parse_raw_read-both_forms tag format pdu rest known some_byte short = (
  parse-untagged format pdu rest (omega arith),
  parse-tagged tag format pdu known some_byte short,
)
