-- ===== src/Manager/SmsPdu/Candidates.antt =====
-- The candidates of a received PDU.
use qmi_go.Base.{
  ℕ, suc, ◌+◌, ◌<◌, ◌≡◌, refl, ap, ◌∙◌, sym, subst, arith, List, [], ◌∷◌, ◌++◌, true, false, ◌||◌,
  not,
}
use qmi_go.Base.{
  length, drop, ltb, leb, ◌==◌, if_both, if_split, Option, none, some, bit_and, Bool-cases, inl,
  inr,
}
use qmi_go.Base.{length-append, drop-append}
use qmi_go.Manager.SmsPdu.{
  looks_like_deliver_tpdu, extract_full_pdu_with_smsc, extract_incoming_rp_data_tpdu, same_bytes,
  has_candidate, append_candidate, incoming_sms_pdu_candidates,
}
use qmi_go.Manager.SmsPdu.Wrapped.{rp_data, extract-rp_data}

-- The address of a service centre: its length, the kind of its number, and the digits, two in a byte.
abbrev pub full_pdu : ℕ → List ℕ → List ℕ → List ℕ
full_pdu kind digits tpdu = suc (length digits) ∷ kind ∷ digits ++ tpdu

pub extract-full_pdu :
    (kind : ℕ) (digits tpdu : List ℕ)
    → (bit_and kind 0x80 == 0) ≡ false
    → 0 < length digits
    → 0 < length tpdu
    → extract_full_pdu_with_smsc (full_pdu kind digits tpdu) ≡ some tpdu
unfolding extract_full_pdu_with_smsc
extract-full_pdu kind digits tpdu international some_digits long =
    let raw = full_pdu kind digits tpdu in
    let P = λ (r : Option (List ℕ)). r ≡ some tpdu in
    let l = length-append digits tpdu in
    if_split P (ltb (length raw) 2) (λ short. absurd (ground (arith, short)))
      (λ _.
        if_split P (suc (length digits) == 0) (λ e. absurd (ground (arith, e)))
          (λ _.
            if_split P (ltb (suc (length digits)) 2 || leb (length raw) (1 + suc (length digits)))
              (λ short. absurd (ground (arith, short, l, some_digits, long)))
              (λ _.
                if_split P (bit_and kind 0x80 == 0) (λ e. absurd (ground (arith, e, international)))
                  (λ _. ap some (
                    ap (λ (i : ℕ). drop i raw) {y = suc (suc (length digits))} (omega arith)
                    ∙ drop-append (length digits) digits tpdu refl)))))

same_bytes_self : (xs : List ℕ) → same_bytes xs xs ≡ true
unfolding same_bytes
same_bytes_self [] = refl
same_bytes_self (x ∷ xs) = let rest = same_bytes_self xs in ground (arith, rest)

has-append_last :
    (tpdu : List ℕ) (cs : List (List ℕ)) → has_candidate tpdu (cs ++ (tpdu ∷ [])) ≡ true
unfolding has_candidate
has-append_last tpdu [] = let e = same_bytes_self tpdu in ground (arith, e)
has-append_last tpdu (c ∷ cs) = let rest = has-append_last tpdu cs in ground (arith, rest)

has-append :
    (tpdu : List ℕ) (cs ds : List (List ℕ))
    → has_candidate tpdu cs ≡ true
    → has_candidate tpdu (cs ++ ds) ≡ true
unfolding has_candidate
has-append tpdu [] ds h = absurd (ground (arith, h))
has-append tpdu (c ∷ cs) ds h = elim (Bool-cases (same_bytes c tpdu)) [
  | inl e ↦ ground (arith, e)
  | inr n ↦ (let rest = has-append tpdu cs ds (ground (arith, h, n)) in ground (arith, rest))
]

has-appended :
    (tpdu : List ℕ) (cs : List (List ℕ))
    → looks_like_deliver_tpdu tpdu ≡ true
    → has_candidate tpdu (append_candidate cs (some tpdu)) ≡ true
unfolding append_candidate
has-appended tpdu cs looks =
    if_split (λ (ds : List (List ℕ)). has_candidate tpdu ds ≡ true)
      (not (looks_like_deliver_tpdu tpdu) || has_candidate tpdu cs) (λ e. ground (arith, e, looks))
      (λ _. has-append_last tpdu cs)

has-kept :
    (tpdu : List ℕ) (cs : List (List ℕ)) (r : Option (List ℕ))
    → has_candidate tpdu cs ≡ true
    → has_candidate tpdu (append_candidate cs r) ≡ true
unfolding append_candidate
has-kept tpdu cs none h = h
has-kept tpdu cs (some t) h =
    if_both (λ (ds : List (List ℕ)). has_candidate tpdu ds ≡ true)
      (not (looks_like_deliver_tpdu t) || has_candidate t cs) h (has-append tpdu cs (t ∷ []) h)

deliver-long : (tpdu : List ℕ) → looks_like_deliver_tpdu tpdu ≡ true → 0 < length tpdu
unfolding looks_like_deliver_tpdu
deliver-long tpdu looks = ground (arith, looks)

-- A DELIVER message is among the candidates of a received PDU in each of the three forms: bare, behind
-- the address of a service centre with at least one byte of digits and the high bit of its kind set,
-- and as the user data of an RP-DATA message with any addresses and anything behind it.
pub candidates-wrapped :
    (tpdu : List ℕ) (kind reference : ℕ) (digits originator destination after : List ℕ)
    → looks_like_deliver_tpdu tpdu ≡ true
    → (bit_and kind 0x80 == 0) ≡ false
    → 0 < length digits
    → (has_candidate tpdu (incoming_sms_pdu_candidates tpdu) ≡ true)
      × (has_candidate tpdu (incoming_sms_pdu_candidates (full_pdu kind digits tpdu)) ≡ true)
      × (has_candidate tpdu
            (incoming_sms_pdu_candidates (rp_data reference originator destination tpdu after))
          ≡ true)
unfolding incoming_sms_pdu_candidates
candidates-wrapped tpdu kind reference digits originator destination after looks international
      some_digits =
    let bare = λ (raw : List ℕ). append_candidate [] (some raw) in
    let full = λ (raw : List ℕ). append_candidate (bare raw) (extract_full_pdu_with_smsc raw) in
    let wrapped = full_pdu kind digits tpdu in
    let message = rp_data reference originator destination tpdu after in
    let long : 0 < length tpdu = deliver-long tpdu looks in
    (
      has-kept tpdu (full tpdu) (extract_incoming_rp_data_tpdu tpdu) (
          has-kept tpdu (bare tpdu) (extract_full_pdu_with_smsc tpdu) (has-appended tpdu [] looks)),
      has-kept tpdu (full wrapped) (extract_incoming_rp_data_tpdu wrapped) (
          subst
            (λ (r : Option (List ℕ)). has_candidate tpdu (append_candidate (bare wrapped) r) ≡ true)
            (sym (extract-full_pdu kind digits tpdu international some_digits long))
            (has-appended tpdu (bare wrapped) looks)),
      subst (λ (r : Option (List ℕ)). has_candidate tpdu (append_candidate (full message) r) ≡ true)
          (sym (extract-rp_data reference originator destination tpdu after long))
          (has-appended tpdu (full message) looks),
    )
