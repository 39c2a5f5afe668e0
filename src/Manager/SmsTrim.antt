-- ===== src/Manager/SmsTrim.antt =====
-- pkg/manager/sms_trim.go: a received SMS cut to the length that it declares. The alphabet of a data
-- coding scheme comes from a third-party package and is an argument here: none for an error, and else
-- whether it is Alpha7Bit.
pub mod Trimmed
pub mod Declared
use qmi_go.Base.{
  ℕ, zero, suc, sym, ◌⊎◌, inl, inr, Bool-cases, subst, ltb_false→le, ◌+◌, ◌-◌, ◌*◌, ◌/◌, ◌%◌, ◌<◌,
  ◌^◌, ◌≤◌, ◌≡◌, refl, ◌∙◌, ap, arith, List, [], ◌∷◌, ◌++◌, Bool, true, false, ◌&&◌, ◌||◌, not,
}
use qmi_go.Base.{
  length, take, ltb, ◌==◌, if◌then◌else◌, Option, none, some, bit_and, if_split, length-take,
  length-append, take-append,
}
use qmi_go.Base.Words.{byte_at}

pub record DeclaredLength : Type 0 where
  pub want : ℕ
  pub is_7bit : Bool
  pub udl : ℕ

unfoldable pub user_octets : Bool → ℕ → ℕ
user_octets is_7bit udl = if is_7bit then (udl * 7 + 7) / 8 else udl

-- From the user data length on, which stands before the index `i`.
unfoldable pub declared_at : (ℕ → Option Bool) → List ℕ → ℕ → Option DeclaredLength
declared_at alphabet_of bytes i = elim (alphabet_of (byte_at bytes (i - 9))) [
  | none ↦ none
  | some is_7bit ↦
      let udl = byte_at bytes (i - 1) in
      let want = i + user_octets is_7bit udl in
      if ltb (length bytes) want
      then none
      else some (record { want = want; is_7bit = is_7bit; udl = udl })
]

unfoldable pub deliver_tpdu_declared_length : (ℕ → Option Bool) → List ℕ → Option DeclaredLength
deliver_tpdu_declared_length alphabet_of bytes =
    let oa_octets = (byte_at bytes 1 + 1) / 2 in
    let found = declared_at alphabet_of bytes (3 + oa_octets + 10) in
    if ltb (length bytes) 1 || not (bit_and (byte_at bytes 0) 0x03 == 0)
    then none
    else if ltb (length bytes) 3
    then none
    else if ltb (length bytes) (3 + oa_octets)
    then none
    else if ltb (length bytes) (3 + oa_octets + 10)
    then none
    else found

-- The bits of the last octet past the last septet are cleared.
unfoldable pub padding_bits : ℕ → ℕ
padding_bits udl = (udl * 7 + 7) / 8 * 8 - udl * 7

unfoldable pub mask_last : List ℕ → ℕ → ℕ → List ℕ
mask_last trimmed want padding =
    take (want - 1) trimmed ++ (bit_and (byte_at trimmed (want - 1)) (2 ^ (8 - padding) - 1) ∷ [])

unfoldable pub trim_to : List ℕ → DeclaredLength → List ℕ
trim_to bytes d =
    let trimmed = take d.want bytes in
    let padding = padding_bits d.udl in
    if d.is_7bit && (ltb 0 d.want && (ltb 0 padding && ltb padding 8))
    then mask_last trimmed d.want padding
    else trimmed

unfoldable pub trim_deliver_tpdu : (ℕ → Option Bool) → List ℕ → List ℕ × Bool
trim_deliver_tpdu alphabet_of bytes = elim (deliver_tpdu_declared_length alphabet_of bytes) [
  | none ↦ (bytes, false)
  | some d ↦ if ltb (length bytes) d.want then (bytes, false) else (trim_to bytes d, true)
]
