-- ===== src/Qmi/Tlv/Sound.antt =====
-- What `parse_tlvs` answers is what stands in the bytes.
use qmi_go.Base.{ℕ, zero, suc, ◌+◌, ◌*◌, ◌≤◌, ◌<◌, ◌≡◌, refl, ap, ◌∙◌, sym, arith, true, inl, inr}
use qmi_go.Base.{List, [], ◌∷◌, ◌++◌, append_assoc, length, drop}
use qmi_go.Base.{All, ok, err, Option, none, some, ltb, ◌&&◌, All-drop, length-take}
use qmi_go.Base.{Bool-cases, Result-cases, take-append-drop}
use qmi_go.Base.Words.{IsByte}
use qmi_go.Qmi.Header.{ParseError}
use qmi_go.Qmi.Tlv.{
  Tlv, ParsedTlvs, prepend, parse_tlvs, unmarshal_tlv, marshal_tlv, marshal_tlvs, all_zero,
  parse_tlvs_loop,
}
use qmi_go.Qmi.Tlv.Fuel.{drop_shorter}
use qmi_go.Qmi.Tlv.RoundTrip.{Fits}

drop_header : (a b c m : ℕ) (rest : List ℕ) → drop (3 + m) (a ∷ b ∷ c ∷ rest) ≡ drop m rest
drop_header a b c m rest =
    let e : 3 + m ≡ suc (suc (suc m)) = omega arith in ap (λ (k : ℕ). drop k (a ∷ b ∷ c ∷ rest)) e

-- The entry that is read is the one that stands at the front.
pub unmarshal_tlv_sound :
    (bytes : List ℕ) (t : Tlv) (n : ℕ)
    → All IsByte bytes
    → unmarshal_tlv bytes ≡ ok (t, n)
    → (bytes ≡ marshal_tlv t ++ drop n bytes) × Fits t
unfolding unmarshal_tlv marshal_tlv
unmarshal_tlv_sound [] t n hb e = ground arith
unmarshal_tlv_sound (a ∷ []) t n hb e = ground arith
unmarshal_tlv_sound (a ∷ b ∷ []) t n hb e = ground arith
unmarshal_tlv_sound (a ∷ b ∷ c ∷ rest) t n hb e = ground (
  arith,
  length-take (b + 256 * c) rest,
  take-append-drop (b + 256 * c) rest,
  drop_header a b c (b + 256 * c) rest,
)

-- How a parse ends at the bytes that are left over.
abbrev pub Ends : List ℕ → Option ParseError → Type 0
Ends rest none = (length rest < 3) × (all_zero rest ≡ true)
Ends rest (some e) = unmarshal_tlv rest ≡ err e

-- The answer beside the bytes: they are the entries in their order, in front of a rest at which
-- the parse ends as it says.
abbrev pub Reads : List ℕ → ParsedTlvs → Type 0
Reads bytes (ts, e) =
    (rest : List ℕ) × (bytes ≡ marshal_tlvs ts ++ rest) × Ends rest e × All Fits ts

prepend-Reads :
    (bytes : List ℕ) (t : Tlv) (n : ℕ) (more : ParsedTlvs)
    → (bytes ≡ marshal_tlv t ++ drop n bytes) × Fits t
    → Reads (drop n bytes) more
    → Reads bytes (prepend t more)
unfolding marshal_tlvs
prepend-Reads bytes t n (ts, e) (front, fits) (rest, eq, ends, all) = (
  rest,
  front ∙ ap (◌++◌ (marshal_tlv t)) eq ∙ sym (append_assoc (marshal_tlv t) (marshal_tlvs ts) rest),
  ends,
  (fits, all),
)

parse_tlvs_loop-Reads :
    (fuel : ℕ) (bytes : List ℕ)
    → length bytes ≤ fuel
    → All IsByte bytes
    → Reads bytes (parse_tlvs_loop fuel bytes)
unfolding parse_tlvs_loop marshal_tlvs
parse_tlvs_loop-Reads fuel [] hf hb = ([], refl, (omega arith, unfold all_zero in refl), tt)
parse_tlvs_loop-Reads zero (b ∷ more) hf hb = absurd (omega arith)
parse_tlvs_loop-Reads (suc fuel) (b ∷ more) hf hb =
    elim (Bool-cases (ltb (length (b ∷ more)) 3 && all_zero (b ∷ more))) [
      | inl short ↦ rw short (b ∷ more, refl, (ground arith, ground arith), tt)
      | inr long ↦ elim (Result-cases (unmarshal_tlv (b ∷ more))) [
        | inl ((t, n), r) ↦
            rw (long, r)
              (prepend-Reads (b ∷ more) t n _ (unmarshal_tlv_sound (b ∷ more) t n hb r) (
                parse_tlvs_loop-Reads fuel (drop n (b ∷ more))
                  (drop_shorter (b ∷ more) t n fuel r hf) (All-drop IsByte n (b ∷ more) hb)))
        | inr (x, r) ↦ rw (long, r) (b ∷ more, refl, r, tt)
      ]
    ]

-- Every answer of `parse_tlvs` is what stands in the bytes. Without an error the input is the
-- entries, marshalled, and fewer than three zero bytes; with an error it is the entries and a
-- rest at which reading one entry fails with that error.
pub parse_tlvs-Reads : (bytes : List ℕ) → All IsByte bytes → Reads bytes (parse_tlvs bytes)
unfolding parse_tlvs
parse_tlvs-Reads bytes hb = parse_tlvs_loop-Reads (length bytes) bytes (omega arith) hb
