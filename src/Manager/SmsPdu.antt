-- ===== src/Manager/SmsPdu.antt =====
-- DecodeIncomingSMSPDU of pkg/manager/manager.go up to the decoder of a TPDU: a received PDU is tried as a
-- bare TPDU, with the address of a service centre before it, and inside an RP-DATA message.
pub mod Wrapped
pub mod Candidates
pub mod Decoding
use qmi_go.Base.{
  ℕ, suc, ◌+◌, ◌-◌, ◌≤◌, ◌<◌, ◌≡◌, refl, ap, ◌∙◌, sym, subst, arith, List, [], ◌∷◌, ◌++◌,
  append_assoc, Bool, true, false, ◌&&◌, ◌||◌, not,
}
use qmi_go.Base.{
  length, take, drop, ltb, leb, ◌==◌, if◌then◌else◌, if_both, if_split, Option, none, some, bit_and,
}
use qmi_go.Base.{length-append, take-append, drop-append}
use qmi_go.Base.Words.{byte_at}

unfoldable pub looks_like_deliver_tpdu : List ℕ → Bool
looks_like_deliver_tpdu tpdu = ltb 0 (length tpdu) && bit_and (byte_at tpdu 0) 0x03 == 0

unfoldable pub extract_full_pdu_with_smsc : List ℕ → Option (List ℕ)
extract_full_pdu_with_smsc raw =
    let smsc_len = byte_at raw 0 in
    if ltb (length raw) 2
    then none
    else if smsc_len == 0
    then some (drop 1 raw)
    else if ltb smsc_len 2 || leb (length raw) (1 + smsc_len)
    then none
    else if bit_and (byte_at raw 1) 0x80 == 0
    then none
    else some (drop (1 + smsc_len) raw)

-- The index behind the address that begins at an index.
unfoldable pub skip_rp_address : List ℕ → ℕ → Option ℕ
skip_rp_address raw i =
    let next = i + 1 + byte_at raw i in
    if leb (length raw) i then none else if ltb (length raw) next then none else some next

unfoldable pub rp_user_data : List ℕ → ℕ → Option (List ℕ)
rp_user_data raw i =
    let len = byte_at raw i in
    if leb (length raw) i
    then none
    else if len == 0 || ltb (length raw) (i + 1 + len)
    then none
    else some (take len (drop (i + 1) raw))

unfoldable pub after_destination : List ℕ → Option ℕ → Option (List ℕ)
after_destination raw none = none
after_destination raw (some i) = rp_user_data raw i

unfoldable pub after_originator : List ℕ → Option ℕ → Option (List ℕ)
after_originator raw none = none
after_originator raw (some i) = after_destination raw (skip_rp_address raw i)

unfoldable pub extract_incoming_rp_data_tpdu : List ℕ → Option (List ℕ)
extract_incoming_rp_data_tpdu raw =
    if ltb (length raw) 5 || not (byte_at raw 0 == 1)
    then none
    else after_originator raw (skip_rp_address raw 2)

unfoldable pub same_bytes : List ℕ → List ℕ → Bool
same_bytes [] [] = true
same_bytes [] (y ∷ ys) = false
same_bytes (x ∷ xs) [] = false
same_bytes (x ∷ xs) (y ∷ ys) = x == y && same_bytes xs ys

unfoldable pub has_candidate : List ℕ → List (List ℕ) → Bool
has_candidate tpdu [] = false
has_candidate tpdu (c ∷ cs) = same_bytes c tpdu || has_candidate tpdu cs

unfoldable pub append_candidate : List (List ℕ) → Option (List ℕ) → List (List ℕ)
append_candidate cs none = cs
append_candidate cs (some tpdu) =
    if not (looks_like_deliver_tpdu tpdu) || has_candidate tpdu cs then cs else cs ++ (tpdu ∷ [])

unfoldable pub incoming_sms_pdu_candidates : List ℕ → List (List ℕ)
incoming_sms_pdu_candidates raw =
    append_candidate
      (append_candidate (append_candidate [] (some raw)) (extract_full_pdu_with_smsc raw))
      (extract_incoming_rp_data_tpdu raw)

abbrev pub or_else : {A : Type 0} → Option A → Option A → Option A
or_else none rest = rest
or_else (some sms) rest = some sms

-- The first candidate that the decoder takes; the decoder comes with a package outside the repository.
unfoldable pub first_decoded : {A : Type 0} → (List ℕ → Option A) → List (List ℕ) → Option A
first_decoded decode [] = none
first_decoded decode (c ∷ cs) = or_else (decode c) (first_decoded decode cs)

unfoldable pub decode_incoming_sms_pdu : {A : Type 0} → (List ℕ → Option A) → List ℕ → Option A
decode_incoming_sms_pdu decode raw = first_decoded decode (incoming_sms_pdu_candidates raw)
