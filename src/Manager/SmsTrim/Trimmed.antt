-- ===== src/Manager/SmsTrim/Trimmed.antt =====
-- What trimDeliverTPDUToDeclaredLength leaves of a message, given the length that it found.
use qmi_go.Base.{
  ℕ, zero, suc, sym, ◌+◌, ◌-◌, ◌*◌, ◌%◌, ◌<◌, ◌^◌, ◌≤◌, ◌≡◌, refl, ◌∙◌, ap, arith, List, [], ◌∷◌,
  ◌++◌, Bool, true, false, ◌&&◌,
}
use qmi_go.Base.{
  length, take, ltb, ◌==◌, if◌then◌else◌, Option, some, bit_and, if_split, length-take,
  length-append, take-append,
}
use qmi_go.Base.Words.{byte_at}
use qmi_go.Manager.SmsTrim.{
  DeclaredLength, deliver_tpdu_declared_length, padding_bits, mask_last, trim_to, trim_deliver_tpdu,
}

-- The last octet of a text: of septets, only the bits that they fill.
abbrev pub last_octet : Bool → ℕ → ℕ → ℕ
last_octet true septets octet =
    if septets * 7 % 8 == 0 then octet else bit_and octet (2 ^ (septets * 7 % 8) - 1)
last_octet false octets octet = octet

-- The trimmed octets: as many as are declared, and those of the message, the last one as its text has it.
pub record IsTrimmed (bytes : List ℕ) (want : ℕ) (is_7bit : Bool) (udl : ℕ) (r : List ℕ)
    : Type 0 where
  pub exact : length r ≡ want
  pub within : want ≤ length bytes
  pub same : take (want - 1) r ≡ take (want - 1) bytes
  pub last : byte_at r (want - 1) ≡ last_octet is_7bit udl (byte_at bytes (want - 1))

take-take : (n m : ℕ) (xs : List ℕ) → n ≤ m → take n (take m xs) ≡ take n xs
take-take zero m xs h = refl
take-take (suc n) zero xs h = absurd (omega (arith, h))
take-take (suc n) (suc m) [] h = refl
take-take (suc n) (suc m) (x ∷ xs) h = ap (λ l. x ∷ l) (take-take n m xs (omega (arith, h)))

byte_at-take : (i n : ℕ) (xs : List ℕ) → i < n → byte_at (take n xs) i ≡ byte_at xs i
byte_at-take i zero xs h = absurd (omega (arith, h))
byte_at-take i (suc n) [] h = refl
byte_at-take zero (suc n) (x ∷ xs) h = refl
byte_at-take (suc i) (suc n) (x ∷ xs) h = byte_at-take i n xs (omega (arith, h))

last_octet-masked :
    (is_7bit : Bool) (udl octet : ℕ)
    → (is_7bit && (ltb 0 (padding_bits udl) && ltb (padding_bits udl) 8)) ≡ true
    → bit_and octet (2 ^ (8 - padding_bits udl) - 1) ≡ last_octet is_7bit udl octet
unfolding padding_bits
last_octet-masked true udl octet h =
    let used : 8 - padding_bits udl ≡ udl * 7 % 8 = ground (arith, h) in
    if_split (λ (k : ℕ). bit_and octet (2 ^ (8 - padding_bits udl) - 1) ≡ k) (udl * 7 % 8 == 0)
      (λ e. absurd (ground (arith, e, h))) (λ _. ap (λ (k : ℕ). bit_and octet (2 ^ k - 1)) used)
last_octet-masked false udl octet h = absurd (ground (arith, h))

last_octet-plain :
    (is_7bit : Bool) (udl octet : ℕ)
    → (is_7bit && (ltb 0 (padding_bits udl) && ltb (padding_bits udl) 8)) ≡ false
    → octet ≡ last_octet is_7bit udl octet
unfolding padding_bits
last_octet-plain true udl octet h =
    if_split (λ (k : ℕ). octet ≡ k) (udl * 7 % 8 == 0) (λ _. refl)
      (λ n. absurd (ground (arith, n, h)))
last_octet-plain false udl octet h = refl

-- An octet behind `xs`.
pub byte_at-past :
    (xs ys : List ℕ) (i j : ℕ) → j ≡ length xs + i → byte_at (xs ++ ys) j ≡ byte_at ys i
byte_at-past [] ys i j e = ap (byte_at ys) (omega (arith, e))
byte_at-past (x ∷ xs) ys i zero e = absurd (omega (arith, e))
byte_at-past (x ∷ xs) ys i (suc j) e = byte_at-past xs ys i j (omega (arith, e))

mask-IsTrimmed :
    (bytes : List ℕ) (want : ℕ) (is_7bit : Bool) (udl : ℕ)
    → 1 ≤ want
    → want ≤ length bytes
    → (is_7bit && (ltb 0 (padding_bits udl) && ltb (padding_bits udl) 8)) ≡ true
    → IsTrimmed bytes want is_7bit udl (mask_last (take want bytes) want (padding_bits udl))
unfolding mask_last
mask-IsTrimmed bytes want is_7bit udl one h masked =
    let trimmed = take want bytes in
    let front = take (want - 1) trimmed in
    let mask = 2 ^ (8 - padding_bits udl) - 1 in
    let last = bit_and (byte_at trimmed (want - 1)) mask ∷ [] in
    let size : length front ≡ want - 1 =
      omega (arith, one, h, length-take (want - 1) trimmed, length-take want bytes) in
    record {
      exact = omega (arith, one, size, length-append front last);
      within = h;
      same =
          take-append (want - 1) front last (sym size)
          ∙ take-take (want - 1) want bytes (omega arith);
      last =
          byte_at-past front last 0 (want - 1) (omega (arith, size))
          ∙ ap (λ (k : ℕ). bit_and k mask) (byte_at-take (want - 1) want bytes (omega (arith, one)))
          ∙ last_octet-masked is_7bit udl (byte_at bytes (want - 1)) masked;
    }

plain-IsTrimmed :
    (bytes : List ℕ) (want : ℕ) (is_7bit : Bool) (udl : ℕ)
    → 1 ≤ want
    → want ≤ length bytes
    → (is_7bit && (ltb 0 (padding_bits udl) && ltb (padding_bits udl) 8)) ≡ false
    → IsTrimmed bytes want is_7bit udl (take want bytes)
plain-IsTrimmed bytes want is_7bit udl one h plain = record {
  exact = omega (arith, h, length-take want bytes);
  within = h;
  same = take-take (want - 1) want bytes (omega arith);
  last =
      byte_at-take (want - 1) want bytes (omega (arith, one))
      ∙ last_octet-plain is_7bit udl (byte_at bytes (want - 1)) plain;
}

pub trim_to-IsTrimmed :
    (bytes : List ℕ) (d : DeclaredLength)
    → 1 ≤ d.want
    → d.want ≤ length bytes
    → IsTrimmed bytes d.want d.is_7bit d.udl (trim_to bytes d)
unfolding trim_to
trim_to-IsTrimmed bytes d one h =
    let padding = padding_bits d.udl in
    if_split (IsTrimmed bytes d.want d.is_7bit d.udl)
      (d.is_7bit && (ltb 0 d.want && (ltb 0 padding && ltb padding 8)))
      (λ masked. mask-IsTrimmed bytes d.want d.is_7bit d.udl one h (ground (arith, masked, one)))
      (λ plain. plain-IsTrimmed bytes d.want d.is_7bit d.udl one h (ground (arith, plain, one)))

pub trim_deliver_tpdu-found :
    (alphabet_of : ℕ → Option Bool) (bytes : List ℕ) (d : DeclaredLength)
    → deliver_tpdu_declared_length alphabet_of bytes ≡ some d
    → ltb (length bytes) d.want ≡ false
    → trim_deliver_tpdu alphabet_of bytes ≡ (trim_to bytes d, true)
unfolding trim_deliver_tpdu
trim_deliver_tpdu-found alphabet_of bytes d found enough =
    rw (found, trim_deliver_tpdu) (rw enough refl)
