-- ===== src/Manager/Smsc/RoundTrip.antt =====
-- An address that is written with two digits in a byte is read back.
use qmi_go.Base.{
  ℕ, ◌+◌, ◌*◌, ◌/◌, ◌%◌, ◌≤◌, ◌≡◌, refl, ap, ◌∙◌, arith, List, [], ◌∷◌, ◌++◌, map, All, Option,
  some,
}
use qmi_go.Base.{leb, if_split}
use qmi_go.Manager.Smsc.{decode_nibble, join, decode_bcd, decode_address_value, address_prefix}

abbrev pub IsDigit : ℕ → Type 0
IsDigit d = d ≤ 9

-- Digits two by two, and the filler behind a last one.
unfoldable pub encode_bcd : List ℕ → List ℕ
encode_bcd [] = []
encode_bcd (x ∷ []) = (x + 15 * 16) ∷ []
encode_bcd (x ∷ y ∷ ds) = (x + y * 16) ∷ encode_bcd ds

abbrev pub digit_text : List ℕ → List ℕ
digit_text ds = map (λ (d : ℕ). 48 + d) ds

nibble-digit : (n d : ℕ) → n ≡ d → d ≤ 9 → decode_nibble n ≡ some ((48 + d) ∷ [])
unfolding decode_nibble
nibble-digit n d e h =
    if_split (λ (r : Option (List ℕ)). r ≡ some ((48 + d) ∷ [])) (leb n 9)
      (λ _. ap (λ (k : ℕ). some ((48 + k) ∷ [])) e) (λ no. absurd (ground (arith, no, e, h)))

nibble-filler : (n : ℕ) → n ≡ 15 → decode_nibble n ≡ some []
unfolding decode_nibble
nibble-filler n e = ground (arith, e)

pub decode_bcd-encode_bcd :
    (ds : List ℕ) → All IsDigit ds → decode_bcd (encode_bcd ds) ≡ some (digit_text ds)
unfolding decode_bcd encode_bcd join
decode_bcd-encode_bcd [] all = refl
decode_bcd-encode_bcd (x ∷ []) (hx, all) =
    ap (λ (r : Option (List ℕ)). join r (join (decode_nibble ((x + 15 * 16) / 16 % 16)) (some [])))
      (nibble-digit ((x + 15 * 16) % 16) x (omega arith) hx)
    ∙ ap (λ (r : Option (List ℕ)). join (some ((48 + x) ∷ [])) (join r (some [])))
        (nibble-filler ((x + 15 * 16) / 16 % 16) (omega arith))
decode_bcd-encode_bcd (x ∷ y ∷ ds) (hx, (hy, all)) =
    let rest = decode_bcd (encode_bcd ds) in
    ap (λ (r : Option (List ℕ)). join r (join (decode_nibble ((x + y * 16) / 16 % 16)) rest))
      (nibble-digit ((x + y * 16) % 16) x (omega arith) hx)
    ∙ ap (λ (r : Option (List ℕ)). join (some ((48 + x) ∷ [])) (join r rest))
        (nibble-digit ((x + y * 16) / 16 % 16) y (omega arith) hy)
    ∙ ap (λ (r : Option (List ℕ)). join (some ((48 + x) ∷ [])) (join (some ((48 + y) ∷ [])) r))
        (decode_bcd-encode_bcd ds all)

pub decode_address-encode :
    (ton : ℕ) (ds : List ℕ)
    → All IsDigit ds
    → decode_address_value (ton ∷ encode_bcd ds) ≡ some (address_prefix ton ++ digit_text ds)
unfolding decode_address_value join
decode_address-encode ton ds all =
    ap (join (some (address_prefix ton))) (decode_bcd-encode_bcd ds all)
