-- ===== src/Qmi/Tlv/Fuel.antt =====
-- `parse_tlvs` is the loop of the source: its fuel never shows.
use qmi_go.Base.{ℕ, zero, suc, ◌≤◌, ◌≡◌, refl, arith}
use qmi_go.Base.{List, [], ◌∷◌, length, drop, length-drop}
use qmi_go.Base.{ok, Result-cases, inl, inr}
use qmi_go.Qmi.Tlv.{Tlv, parse_round, parse_tlvs_loop, parse_tlvs, unmarshal_tlv}

-- What `unmarshal_tlv` takes lies in the input, and is three bytes at least.
pub unmarshal_tlv_consumed :
    (bytes : List ℕ) (t : Tlv) (n : ℕ)
    → unmarshal_tlv bytes ≡ ok (t, n)
    → (3 ≤ n) × (n ≤ length bytes)
unfolding unmarshal_tlv
unmarshal_tlv_consumed bytes t n e = ground arith

pub drop_shorter :
    (bytes : List ℕ) (t : Tlv) (n fuel : ℕ)
    → unmarshal_tlv bytes ≡ ok (t, n)
    → length bytes ≤ suc fuel
    → length (drop n bytes) ≤ fuel
drop_shorter bytes t n fuel e h =
    omega (arith, unmarshal_tlv_consumed bytes t n e, length-drop n bytes)

-- Fuel for every byte is enough: more changes nothing.
pub parse_tlvs_loop_fuel :
    (f g : ℕ) (bytes : List ℕ)
    → length bytes ≤ f
    → length bytes ≤ g
    → parse_tlvs_loop f bytes ≡ parse_tlvs_loop g bytes
unfolding parse_tlvs_loop
parse_tlvs_loop_fuel f g [] hf hg = refl
parse_tlvs_loop_fuel zero g (b ∷ rest) hf hg = absurd (omega arith)
parse_tlvs_loop_fuel (suc f) zero (b ∷ rest) hf hg = absurd (omega arith)
parse_tlvs_loop_fuel (suc f) (suc g) (b ∷ rest) hf hg =
    elim (Result-cases (unmarshal_tlv (b ∷ rest))) [
      | inl ((t, n), e) ↦ ground (
        arith,
        e,
        parse_tlvs_loop_fuel f g (drop n (b ∷ rest)) (drop_shorter (b ∷ rest) t n f e hf)
            (drop_shorter (b ∷ rest) t n g e hg),
      )
      | inr (x, e) ↦ rw e refl
    ]

-- The loop of the source, with no fuel: the equation that `parse_tlvs` satisfies at every input.
pub parse_tlvs_round :
    (b : ℕ) (rest : List ℕ) → parse_tlvs (b ∷ rest) ≡ parse_round parse_tlvs (b ∷ rest)
unfolding parse_tlvs
parse_tlvs_round b rest = elim (Result-cases (unmarshal_tlv (b ∷ rest))) [
  | inl ((t, n), e) ↦ ground (
    arith,
    e,
    parse_tlvs_loop_fuel (length rest) (length (drop n (b ∷ rest))) (drop n (b ∷ rest))
        (drop_shorter (b ∷ rest) t n (length rest) e (omega arith)) (omega arith),
  )
  | inr (x, e) ↦ rw e refl
]
