-- ===== src/Manager/SmsTrim/Declared.antt =====
-- The length that deliverTPDUDeclaredLength finds in a DELIVER message, and what is left of the message.
use qmi_go.Base.{
  ℕ, sym, ◌⊎◌, inl, inr, Bool-cases, subst, ltb_false→le, ◌+◌, ◌-◌, ◌*◌, ◌/◌, ◌<◌, ◌≤◌, ◌≡◌, refl,
  ◌∙◌, ap, arith, List, ◌∷◌, ◌++◌, Bool, true, false, ◌||◌, not,
}
use qmi_go.Base.{
  length, ltb, ◌==◌, if◌then◌else◌, Option, none, some, bit_and, if_split, length-append,
}
use qmi_go.Base.Words.{byte_at}
use qmi_go.Manager.SmsTrim.{
  DeclaredLength, user_octets, declared_at, deliver_tpdu_declared_length, trim_deliver_tpdu,
}
use qmi_go.Manager.SmsTrim.Trimmed.{
  byte_at-past, IsTrimmed, trim_to-IsTrimmed, trim_deliver_tpdu-found,
}

-- A DELIVER message by its parts: the first octet, the digits and the kind of the sender's number with
-- its octets, the protocol, the coding, the time stamp, the length of the text and the text.
pub record Deliver : Type 0 where
  pub header : ℕ
  pub digits : ℕ
  pub kind : ℕ
  pub address : List ℕ
  pub protocol : ℕ
  pub coding : ℕ
  pub stamp : List ℕ
  pub text_length : ℕ
  pub text : List ℕ

abbrev pub octets_of : Deliver → List ℕ
octets_of d =
    d.header
    ∷ d.digits
    ∷ d.kind
    ∷ (d.address ++ (d.protocol ∷ d.coding ∷ (d.stamp ++ (d.text_length ∷ d.text))))

pub record IsDeliver (d : Deliver) : Type 0 where
  pub direction : (bit_and d.header 0x03 == 0) ≡ true
  pub whole_address : length d.address ≡ (d.digits + 1) / 2
  pub whole_stamp : length d.stamp ≡ 7

-- The octets of a text: a septet is 7 bits of them.
abbrev pub text_octets : Bool → ℕ → ℕ
text_octets true septets = (septets * 7 + 7) / 8
text_octets false octets = octets

octets_of-coding :
    (d : Deliver) (i : ℕ) → i ≡ length d.address + 4 → byte_at (octets_of d) i ≡ d.coding
octets_of-coding d i e =
    let rest = d.protocol ∷ d.coding ∷ (d.stamp ++ (d.text_length ∷ d.text)) in
    byte_at-past (d.header ∷ d.digits ∷ d.kind ∷ d.address) rest 1 i (omega (arith, e))

octets_of-text_length :
    (d : Deliver) (i : ℕ)
    → IsDeliver d
    → i ≡ length d.address + 12
    → byte_at (octets_of d) i ≡ d.text_length
octets_of-text_length d i h e =
    let rest = d.protocol ∷ d.coding ∷ (d.stamp ++ (d.text_length ∷ d.text)) in
    byte_at-past (d.header ∷ d.digits ∷ d.kind ∷ d.address) rest 9 i (omega (arith, e))
    ∙ byte_at-past (d.protocol ∷ d.coding ∷ d.stamp) (d.text_length ∷ d.text) 0 9
        (omega (arith, h.whole_stamp))

length-octets_of :
    (d : Deliver) → IsDeliver d → length (octets_of d) ≡ 13 + length d.address + length d.text
length-octets_of d h = omega (
  arith,
  h.whole_stamp,
  length-append d.address (d.protocol ∷ d.coding ∷ (d.stamp ++ (d.text_length ∷ d.text))),
  length-append d.stamp (d.text_length ∷ d.text),
)

-- What is found for a message by its parts.
abbrev found_for : Deliver → Bool → Option DeclaredLength
found_for d is_7bit =
    if ltb (length d.text) (text_octets is_7bit d.text_length)
    then none
    else some (record {
      want = 13 + length d.address + text_octets is_7bit d.text_length;
      is_7bit = is_7bit;
      udl = d.text_length;
    })

user_octets-text_octets : (is_7bit : Bool) (n : ℕ) → user_octets is_7bit n ≡ text_octets is_7bit n
unfolding user_octets
user_octets-text_octets true n = refl
user_octets-text_octets false n = refl

-- What is found from the two octets that are read.
declared_at-read :
    (alphabet_of : ℕ → Option Bool) (bytes : List ℕ) (i coding udl : ℕ) (is_7bit : Bool)
    → byte_at bytes (i - 9) ≡ coding
    → byte_at bytes (i - 1) ≡ udl
    → alphabet_of coding ≡ some is_7bit
    → declared_at alphabet_of bytes i ≡ (
        if ltb (length bytes) (i + user_octets is_7bit udl)
        then none
        else some (record { want = i + user_octets is_7bit udl; is_7bit = is_7bit; udl = udl }))
unfolding declared_at
declared_at-read alphabet_of bytes i coding udl is_7bit c u a =
    rw (ap alphabet_of c ∙ a, declared_at) (rw u refl)

declared_at-Deliver :
    (alphabet_of : ℕ → Option Bool) (d : Deliver) (is_7bit : Bool)
    → IsDeliver d
    → alphabet_of d.coding ≡ some is_7bit
    → declared_at alphabet_of (octets_of d) (13 + length d.address) ≡ found_for d is_7bit
declared_at-Deliver alphabet_of d is_7bit h a =
    let start = 13 + length d.address in
    let octets = text_octets is_7bit d.text_length in
    let size = length-octets_of d h in
    let found : DeclaredLength = record {
      want = start + octets;
      is_7bit = is_7bit;
      udl = d.text_length;
    } in
    let short : ltb (length (octets_of d)) (start + octets) ≡ ltb (length d.text) octets =
      ground (arith, size) in
    declared_at-read alphabet_of (octets_of d) start d.coding d.text_length is_7bit
      (octets_of-coding d (start - 9) (omega arith))
      (octets_of-text_length d (start - 1) h (omega arith)) a
    ∙ rw (user_octets-text_octets is_7bit d.text_length)
        (ap (λ (b : Bool). if b then none else some found) short)

-- The length of a message by its parts is found where its text is long enough.
declared_length-Deliver :
    (alphabet_of : ℕ → Option Bool) (d : Deliver) (is_7bit : Bool)
    → IsDeliver d
    → alphabet_of d.coding ≡ some is_7bit
    → deliver_tpdu_declared_length alphabet_of (octets_of d) ≡ found_for d is_7bit
unfolding deliver_tpdu_declared_length
declared_length-Deliver alphabet_of d is_7bit h a =
    let bytes = octets_of d in
    let size = length-octets_of d h in
    let oa_octets = (d.digits + 1) / 2 in
    let P = λ (r : Option DeclaredLength). r ≡ found_for d is_7bit in
    let found : declared_at alphabet_of bytes (3 + oa_octets + 10) ≡ found_for d is_7bit =
      subst (λ (i : ℕ). declared_at alphabet_of bytes i ≡ found_for d is_7bit)
        (omega (arith, h.whole_address)) (declared_at-Deliver alphabet_of d is_7bit h a) in
    if_split P (ltb (length bytes) 1 || not (bit_and d.header 0x03 == 0))
      (λ e. absurd (ground (arith, e, size, h.direction)))
      (λ _.
        if_split P (ltb (length bytes) 3) (λ e. absurd (ground (arith, e, size)))
          (λ _.
            if_split P (ltb (length bytes) (3 + oa_octets))
              (λ e. absurd (ground (arith, e, size, h.whole_address)))
              (λ _.
                if_split P (ltb (length bytes) (3 + oa_octets + 10))
                  (λ e. absurd (ground (arith, e, size, h.whole_address))) (λ _. found))))

-- A DELIVER message of a whole address and time stamp, whose coding has a known alphabet, stays
-- as it is where its text is shorter than its declared length (in octets, a septet being 7 bits),
-- and is cut behind the declared text otherwise: all but the last octet are as they were, and of
-- the last one, in septets, only the bits that they fill are kept.
pub trim_deliver_tpdu-IsTrimmed :
    (alphabet_of : ℕ → Option Bool) (d : Deliver) (is_7bit : Bool)
    → IsDeliver d
    → alphabet_of d.coding ≡ some is_7bit
    → let octets = text_octets is_7bit d.text_length in
      let r = trim_deliver_tpdu alphabet_of (octets_of d) in
      ((length d.text < octets) × (r ≡ (octets_of d, false)))
      ⊎ ((octets ≤ length d.text)
          × (r.1 ≡ true)
          × IsTrimmed (octets_of d) (13 + length d.address + octets) is_7bit d.text_length r.0)
unfolding trim_deliver_tpdu
trim_deliver_tpdu-IsTrimmed alphabet_of d is_7bit h a =
    let bytes = octets_of d in
    let octets = text_octets is_7bit d.text_length in
    let want = 13 + length d.address + octets in
    let size = length-octets_of d h in
    let declared = declared_length-Deliver alphabet_of d is_7bit h a in
    let end : DeclaredLength = record { want = want; is_7bit = is_7bit; udl = d.text_length } in
    elim (Bool-cases (ltb (length d.text) octets)) [
      | inl short ↦
          let nothing : deliver_tpdu_declared_length alphabet_of bytes ≡ none =
            declared ∙ ap (λ (b : Bool). if b then none else some end) short in
          inl (ground (arith, short), rw (nothing, trim_deliver_tpdu) refl)
      | inr enough ↦
          let found : deliver_tpdu_declared_length alphabet_of bytes ≡ some end =
            declared ∙ ap (λ (b : Bool). if b then none else some end) enough in
          let there : want ≤ length bytes = ground (arith, enough, size) in
          let done = trim_deliver_tpdu-found alphabet_of bytes end found (ground (arith, there)) in
          inr (
            ltb_false→le (length d.text) octets enough,
            ap (λ (r : List ℕ × Bool). r.1) done,
            subst (λ (r : List ℕ × Bool). IsTrimmed bytes want is_7bit d.text_length r.0) (sym done)
                (trim_to-IsTrimmed bytes end (omega arith) there),
          )
    ]
