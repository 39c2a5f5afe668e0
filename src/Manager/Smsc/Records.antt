-- ===== src/Manager/Smsc/Records.antt =====
-- The address of a service centre in a record of EF SMSP, and in a service centre address.
use qmi_go.Base.{
  ℕ, suc, ◌+◌, ◌-◌, ◌*◌, ◌≤◌, ◌<◌, ◌≡◌, refl, ap, ◌∙◌, sym, subst, arith, List, [], ◌∷◌, ◌++◌, true,
  false, ◌&&◌, ◌||◌, not, All,
}
use qmi_go.Base.{length, take, drop, ltb, leb, ◌==◌, if_split, bit_and, length-append, take-append}
use qmi_go.Base.Words.{byte_at}
use qmi_go.Manager.SmsPdu.Wrapped.{byte_at-append, drop-past}
use qmi_go.Manager.Smsc.{
  address_prefix, decode_address_value, all_digits, without_plus, is_likely_smsc, likely,
  decode_smsc_at_offset, all_bytes, each_byte, or_text, scan_record, parse_smsc_from_smsp_record,
  parse_smsc_from_ts_service_centre_address,
}
use qmi_go.Manager.Smsc.RoundTrip.{IsDigit, encode_bcd, digit_text, decode_address-encode}

length-encode_bcd :
    (ds : List ℕ)
    → (length ds ≤ length (encode_bcd ds) * 2) × (length (encode_bcd ds) * 2 ≤ length ds + 1)
unfolding encode_bcd
length-encode_bcd [] = (omega arith, omega arith)
length-encode_bcd (x ∷ []) = (omega arith, omega arith)
length-encode_bcd (x ∷ y ∷ ds) =
    let h = length-encode_bcd ds in (ground (arith, h), ground (arith, h))

length-digit_text : (ds : List ℕ) → length (digit_text ds) ≡ length ds
length-digit_text [] = refl
length-digit_text (d ∷ ds) = let h = length-digit_text ds in ground (arith, h)

all_digits-digit_text : (ds : List ℕ) → All IsDigit ds → all_digits (digit_text ds) ≡ true
unfolding all_digits
all_digits-digit_text [] all = refl
all_digits-digit_text (d ∷ ds) (h, all) =
    let rest = all_digits-digit_text ds all in ground (arith, h, rest)

-- A sign is taken off, and digits begin with none.
without_plus-text :
    (ton : ℕ) (ds : List ℕ)
    → 0 < length ds
    → All IsDigit ds
    → without_plus (address_prefix ton ++ digit_text ds) ≡ digit_text ds
unfolding without_plus address_prefix
without_plus-text ton [] h all = absurd (omega arith)
without_plus-text ton (d ∷ ds) h (digit, all) =
    if_split (λ (p : List ℕ). without_plus (p ++ digit_text (d ∷ ds)) ≡ digit_text (d ∷ ds))
      (bit_and ton 0x70 == 0x10) (λ _. refl)
      (λ _.
        if_split (λ (t : List ℕ). t ≡ digit_text (d ∷ ds)) (48 + d == 43)
          (λ e. absurd (ground (arith, e))) (λ _. refl))

abbrev pub number_text : ℕ → List ℕ → List ℕ
number_text ton ds = address_prefix ton ++ digit_text ds

likely-text :
    (ton : ℕ) (ds : List ℕ)
    → 5 ≤ length ds
    → length ds ≤ 16
    → All IsDigit ds
    → likely (decode_address_value (ton ∷ encode_bcd ds)) ≡ number_text ton ds
unfolding likely is_likely_smsc
likely-text ton ds low high all =
    let w = without_plus-text ton ds (omega arith) all in
    let l = length-digit_text ds in
    let a = all_digits-digit_text ds all in
    let good : is_likely_smsc (number_text ton ds) ≡ true =
      subst
        (λ (v : List ℕ).
          (not (ltb (length v) 5) && (not (ltb 16 (length v)) && all_digits v)) ≡ true)
        (sym w) (ground (arith, l, a, low, high)) in
    ap likely (decode_address-encode ton ds all)
    ∙ if_split (λ (t : List ℕ). t ≡ number_text ton ds) (is_likely_smsc (number_text ton ds))
        (λ _. refl) (λ no. absurd (ground (arith, no, good)))

-- The kind of a number: its high bit is set, and it is not the filler.
pub record IsKind (ton : ℕ) : Type 0 where
  pub high : (bit_and ton 0x80 == 0) ≡ false
  pub some_bit : (ton == 0x00) ≡ false
  pub unfilled : (ton == 0xff) ≡ false

kind-excluded :
    (ton : ℕ) → IsKind ton → (ton == 0x00 || (ton == 0xff || bit_and ton 0x80 == 0)) ≡ true → ⊥
kind-excluded ton k e = ground (arith, e, k.high, k.some_bit, k.unfilled)

-- An address with its length before it.
abbrev pub written : ℕ → List ℕ → List ℕ
written ton ds = suc (length (encode_bcd ds)) ∷ ton ∷ encode_bcd ds

byte_at-next : (xs ys : List ℕ) (x y : ℕ) → byte_at (xs ++ (x ∷ y ∷ ys)) (suc (length xs)) ≡ y
byte_at-next [] ys x y = refl
byte_at-next (z ∷ xs) ys x y = byte_at-next xs ys x y

byte_at-second : (xs ys : List ℕ) (x y : ℕ) → byte_at (xs ++ (x ∷ y ∷ ys)) (length xs + 1) ≡ y
byte_at-second xs ys x y =
    ap (λ (i : ℕ). byte_at (xs ++ (x ∷ y ∷ ys)) i) {y = suc (length xs)} (omega arith)
    ∙ byte_at-next xs ys x y

decode_smsc-written :
    (ton : ℕ) (ds before after : List ℕ)
    → IsKind ton
    → 5 ≤ length ds
    → length ds ≤ 16
    → All IsDigit ds
    → decode_smsc_at_offset (before ++ (written ton ds ++ after)) (length before)
      ≡ number_text ton ds
unfolding decode_smsc_at_offset
decode_smsc-written ton ds before after k low high all =
    let raw = before ++ (written ton ds ++ after) in
    let enc = encode_bcd ds in
    let n = length-encode_bcd ds in
    let first = byte_at-append before (ton ∷ enc ++ after) (suc (length enc)) in
    let second = byte_at-second before (enc ++ after) (suc (length enc)) ton in
    let l = length-append before (written ton ds ++ after) in
    let m = length-append enc after in
    let P = λ (t : List ℕ). t ≡ number_text ton ds in
    let len = byte_at raw (length before) in
    if_split P (leb (length raw - 1) (length before)) (λ e. absurd (ground (arith, e, l)))
      (λ _.
        if_split P (ltb len 2 || ltb 12 len) (λ e. absurd (ground (arith, e, first, n, low, high)))
          (λ _.
            if_split P (ltb (length raw) (length before + 1 + len))
              (λ e. absurd (ground (arith, e, first, l, m)))
              (λ _.
                if_split P
                  (byte_at raw (length before + 1) == 0x00
                    || (byte_at raw (length before + 1) == 0xff
                        || bit_and (byte_at raw (length before + 1)) 0x80 == 0))
                  (λ e. absurd (
                    kind-excluded ton k (
                      subst (λ (b : ℕ). (b == 0x00 || (b == 0xff || bit_and b 0x80 == 0)) ≡ true)
                        second e)))
                  (λ _.
                    ap (λ (bytes : List ℕ). likely (decode_address_value bytes))
                      (ap (λ (i : ℕ). take len (drop i raw)) {y = suc (length before)} (omega arith)
                        ∙ ap (take len) (drop-past before (ton ∷ enc ++ after) (suc (length enc)))
                        ∙ take-append len (ton ∷ enc) after first)
                    ∙ likely-text ton ds low high all))))

all_bytes-written :
    (ton : ℕ) (ds after : List ℕ)
    → length ds ≤ 16
    → all_bytes (written ton ds ++ after) 0xff ≡ false
unfolding all_bytes each_byte
all_bytes-written ton ds after high = let n = length-encode_bcd ds in ground (arith, n, high)

ts_address-written :
    (ton : ℕ) (ds after : List ℕ)
    → 5 ≤ length ds
    → length ds ≤ 16
    → All IsDigit ds
    → parse_smsc_from_ts_service_centre_address (written ton ds ++ after) ≡ number_text ton ds
unfolding parse_smsc_from_ts_service_centre_address
ts_address-written ton ds after low high all =
    let raw = written ton ds ++ after in
    let enc = encode_bcd ds in
    let n = length-encode_bcd ds in
    let m = length-append enc after in
    let f = all_bytes-written ton ds after high in
    let P = λ (t : List ℕ). t ≡ number_text ton ds in
    if_split P (length raw == 0 || all_bytes raw 0xff) (λ e. absurd (ground (arith, e, f)))
      (λ _.
        if_split P (ltb (suc (length enc)) 2 || suc (length enc) == 0xff)
          (λ e. absurd (ground (arith, e, n, low, high)))
          (λ _.
            if_split P (ltb (length raw) (1 + suc (length enc)))
              (λ e. absurd (ground (arith, e, m)))
              (λ _.
                ap (λ (bytes : List ℕ). likely (decode_address_value bytes))
                  (take-append (suc (length enc)) (ton ∷ enc) after refl)
                ∙ likely-text ton ds low high all)))

or_text-some : (t rest : List ℕ) → 0 < length t → or_text t rest ≡ t
unfolding or_text
or_text-some [] rest h = absurd (omega arith)
or_text-some (c ∷ cs) rest h = refl

number_text-long : (ton : ℕ) (ds : List ℕ) → 5 ≤ length ds → 0 < length (number_text ton ds)
number_text-long ton ds low =
    let l = length-append (address_prefix ton) (digit_text ds) in
    let n = length-digit_text ds in ground (arith, l, n, low)

-- The number of a service centre with 5 to 16 digits, whose kind has its high bit set and is not 0xFF, is
-- read back, with its sign, from a service centre address and from a record where it stands at the
-- offset 13, whatever stands around it.
pub parse_smsc-written :
    (ton : ℕ) (ds before after : List ℕ)
    → IsKind ton
    → 5 ≤ length ds
    → length ds ≤ 16
    → All IsDigit ds
    → length before ≡ 13
    → (parse_smsc_from_ts_service_centre_address (written ton ds ++ after) ≡ number_text ton ds)
      × (parse_smsc_from_smsp_record (before ++ (written ton ds ++ after)) ≡ number_text ton ds)
unfolding parse_smsc_from_smsp_record
parse_smsc-written ton ds before after k low high all there =
    let raw = before ++ (written ton ds ++ after) in
    let scanned = scan_record raw (length raw - 2) 0 in
    let found : decode_smsc_at_offset raw 13 ≡ number_text ton ds =
      subst (λ (i : ℕ). decode_smsc_at_offset raw i ≡ number_text ton ds) there
        (decode_smsc-written ton ds before after k low high all) in
    (
      ts_address-written ton ds after low high all,
      ap (λ (t : List ℕ). or_text t scanned) found
          ∙ or_text-some (number_text ton ds) scanned (number_text-long ton ds low),
    )
