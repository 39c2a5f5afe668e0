-- ===== src/Manager/SmsPdu/Wrapped.antt =====
-- A TPDU in its wrappings is among the candidates.
use qmi_go.Base.{
  ℕ, suc, ◌+◌, ◌<◌, ◌≡◌, refl, ap, ◌∙◌, sym, subst, arith, List, [], ◌∷◌, ◌++◌, append_assoc, ◌||◌,
  not,
}
use qmi_go.Base.{length, take, drop, ltb, leb, ◌==◌, if_split, Option, some}
use qmi_go.Base.{length-append, take-append}
use qmi_go.Base.Words.{byte_at}
use qmi_go.Manager.SmsPdu.{
  skip_rp_address, rp_user_data, after_destination, after_originator, extract_incoming_rp_data_tpdu,
}

pub byte_at-append : (xs ys : List ℕ) (y : ℕ) → byte_at (xs ++ (y ∷ ys)) (length xs) ≡ y
byte_at-append [] ys y = refl
byte_at-append (x ∷ xs) ys y = byte_at-append xs ys y

-- An address whose length stands before it is skipped.
skip-address :
    (before address after : List ℕ)
    → skip_rp_address (before ++ (length address ∷ address ++ after)) (length before)
      ≡ some (length before + 1 + length address)
unfolding skip_rp_address
skip-address before address after =
    let e = byte_at-append before (address ++ after) (length address) in
    let l = length-append before (length address ∷ address ++ after) in
    let k = length-append address after in ground (arith, e, l, k)

pub drop-past :
    (before after : List ℕ) (x : ℕ) → drop (suc (length before)) (before ++ (x ∷ after)) ≡ after
drop-past [] after x = refl
drop-past (y ∷ before) after x = drop-past before after x

user_data-found :
    (before tpdu after : List ℕ)
    → 0 < length tpdu
    → rp_user_data (before ++ (length tpdu ∷ tpdu ++ after)) (length before) ≡ some tpdu
unfolding rp_user_data
user_data-found before tpdu after long =
    let raw = before ++ (length tpdu ∷ tpdu ++ after) in
    let e = byte_at-append before (tpdu ++ after) (length tpdu) in
    let l = length-append before (length tpdu ∷ tpdu ++ after) in
    let k = length-append tpdu after in
    let P = λ (r : Option (List ℕ)). r ≡ some tpdu in
    if_split P (leb (length raw) (length before)) (λ short. absurd (ground (arith, short, l)))
      (λ _.
        if_split P
          (byte_at raw (length before) == 0
            || ltb (length raw) (length before + 1 + byte_at raw (length before)))
          (λ short. absurd (ground (arith, short, l, k, e, long)))
          (λ _. ap some (
            ap (λ (i : ℕ). take (byte_at raw (length before)) (drop i raw))
              {y = suc (length before)} (omega arith)
            ∙ ap (take (byte_at raw (length before)))
                (drop-past before (tpdu ++ after) (length tpdu))
            ∙ take-append (byte_at raw (length before)) tpdu after e)))

-- An RP-DATA message to the mobile: reference, originator, destination and user data.
abbrev pub rp_data : ℕ → List ℕ → List ℕ → List ℕ → List ℕ → List ℕ
rp_data reference originator destination tpdu after =
    1 ∷ reference ∷ length originator ∷ originator
    ++ (length destination ∷ destination ++ (length tpdu ∷ tpdu ++ after))

module _ (reference : ℕ) (originator destination tpdu after : List ℕ) where
  first-address :
      skip_rp_address (rp_data reference originator destination tpdu after) 2
      ≡ some (2 + 1 + length originator)
  first-address =
      skip-address (1 ∷ reference ∷ []) originator
        (length destination ∷ destination ++ (length tpdu ∷ tpdu ++ after))

  second-address :
      skip_rp_address
        (rp_data reference originator destination tpdu after)
        (2 + 1 + length originator)
      ≡ some (2 + 1 + length originator + 1 + length destination)
  second-address =
      subst
        (λ (i : ℕ).
          skip_rp_address (rp_data reference originator destination tpdu after) i
          ≡ some (i + 1 + length destination))
        (omega arith)
        (skip-address (1 ∷ reference ∷ length originator ∷ originator) destination
          (length tpdu ∷ tpdu ++ after))

  user-data :
      0 < length tpdu
      → rp_user_data
          (rp_data reference originator destination tpdu after)
          (2 + 1 + length originator + 1 + length destination)
        ≡ some tpdu
  user-data long =
      let before =
        (1 ∷ reference ∷ length originator ∷ originator) ++ (length destination ∷ destination) in
      let l =
        length-append (1 ∷ reference ∷ length originator ∷ originator)
          (length destination ∷ destination) in
      ap (λ (raw : List ℕ). rp_user_data raw (2 + 1 + length originator + 1 + length destination))
        (sym (
          append_assoc (1 ∷ reference ∷ length originator ∷ originator)
            (length destination ∷ destination) (length tpdu ∷ tpdu ++ after)))
      ∙ ap (rp_user_data (before ++ (length tpdu ∷ tpdu ++ after))) {y = length before}
          (ground (arith, l))
      ∙ user_data-found before tpdu after long

  pub extract-rp_data :
      0 < length tpdu
      → extract_incoming_rp_data_tpdu (rp_data reference originator destination tpdu after)
        ≡ some tpdu
  unfolding extract_incoming_rp_data_tpdu after_originator after_destination
  extract-rp_data long =
      let raw = rp_data reference originator destination tpdu after in
      let k =
        length-append originator
          (length destination ∷ destination ++ (length tpdu ∷ tpdu ++ after)) in
      let l = length-append destination (length tpdu ∷ tpdu ++ after) in
      if_split (λ (r : Option (List ℕ)). r ≡ some tpdu)
        (ltb (length raw) 5 || not (byte_at raw 0 == 1))
        (λ short. absurd (ground (arith, short, k, l)))
        (λ _.
          ap (after_originator raw) first-address
          ∙ ap (after_destination raw) second-address
          ∙ user-data long)
