-- ===== src/Manager/SmsPdu/Decoding.antt =====
-- What DecodeIncomingSMSPDU decodes.
use qmi_go.Base.{
  ℕ, ◌<◌, ◌≡◌, refl, ap, ◌∙◌, arith, List, [], ◌∷◌, Bool, true, false, Option, none, some, ◌==◌,
  length, bit_and, Bool-cases, inl, inr,
}
use qmi_go.Manager.SmsPdu.{
  looks_like_deliver_tpdu, same_bytes, has_candidate, incoming_sms_pdu_candidates, or_else,
  first_decoded, decode_incoming_sms_pdu,
}
use qmi_go.Manager.SmsPdu.Wrapped.{rp_data}
use qmi_go.Manager.SmsPdu.Candidates.{full_pdu, candidates-wrapped}

abbrev pub is_decoded : {A : Type 0} → Option A → Bool
is_decoded none = false
is_decoded (some sms) = true

same_bytes-path : (xs ys : List ℕ) → same_bytes xs ys ≡ true → xs ≡ ys
unfolding same_bytes
same_bytes-path [] [] h = refl
same_bytes-path [] (y ∷ ys) h = absurd (ground (arith, h))
same_bytes-path (x ∷ xs) [] h = absurd (ground (arith, h))
same_bytes-path (x ∷ xs) (y ∷ ys) h =
    let p : x ≡ y = ground (arith, h) in
    let q = same_bytes-path xs ys (ground (arith, h)) in λ i. p i ∷ q i

or_else-first :
    {A : Type 0} (r rest : Option A) → is_decoded r ≡ true → is_decoded (or_else r rest) ≡ true
or_else-first none rest h = absurd (ground (arith, h))
or_else-first (some sms) rest h = refl

or_else-rest :
    {A : Type 0} (r rest : Option A) → is_decoded rest ≡ true → is_decoded (or_else r rest) ≡ true
or_else-rest none rest h = h
or_else-rest (some sms) rest h = refl

module _ {A : Type 0} (decode : List ℕ → Option A) where
  first_decoded-some :
      (tpdu : List ℕ) (cs : List (List ℕ))
      → is_decoded (decode tpdu) ≡ true
      → has_candidate tpdu cs ≡ true
      → is_decoded (first_decoded decode cs) ≡ true
  unfolding first_decoded has_candidate
  first_decoded-some tpdu [] d h = absurd (ground (arith, h))
  first_decoded-some tpdu (c ∷ cs) d h = elim (Bool-cases (same_bytes c tpdu)) [
    | inl e ↦
        or_else-first (decode c) (first_decoded decode cs)
          (ap (λ (x : List ℕ). is_decoded (decode x)) (same_bytes-path c tpdu e) ∙ d)
    | inr n ↦
        or_else-rest (decode c) (first_decoded decode cs)
          (first_decoded-some tpdu cs d (ground (arith, h, n)))
  ]

-- Whatever decoder of TPDUs is used: a DELIVER message that it takes leads to a decoded message when it
-- is received bare, behind the address of a service centre with at least one byte of digits and the
-- high bit of its kind set, and in an RP-DATA message with any addresses and anything behind it.
pub decode_incoming_sms_pdu-wrapped :
    {A : Type 0} (decode : List ℕ → Option A) (tpdu : List ℕ) (kind reference : ℕ)
    (digits originator destination after : List ℕ)
    → is_decoded (decode tpdu) ≡ true
    → looks_like_deliver_tpdu tpdu ≡ true
    → (bit_and kind 0x80 == 0) ≡ false
    → 0 < length digits
    → (is_decoded (decode_incoming_sms_pdu decode tpdu) ≡ true)
      × (is_decoded (decode_incoming_sms_pdu decode (full_pdu kind digits tpdu)) ≡ true)
      × (is_decoded
            (decode_incoming_sms_pdu decode (rp_data reference originator destination tpdu after))
          ≡ true)
unfolding decode_incoming_sms_pdu
decode_incoming_sms_pdu-wrapped decode tpdu kind reference digits originator destination after d
      looks inter some_digits =
    let c =
      candidates-wrapped tpdu kind reference digits originator destination after looks inter
        some_digits in
    let message = rp_data reference originator destination tpdu after in
    (
      first_decoded-some decode tpdu (incoming_sms_pdu_candidates tpdu) d c.0,
      first_decoded-some decode tpdu (incoming_sms_pdu_candidates (full_pdu kind digits tpdu)) d
          c.1,
      first_decoded-some decode tpdu (incoming_sms_pdu_candidates message) d c.2,
    )
