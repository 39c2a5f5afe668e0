-- ===== src/Qmi/Wds/Listed.antt =====
-- The lists of profiles and of P-CSCF addresses of pkg/qmi/wds.go.
use qmi_go.Base.{ℕ, zero, suc, ◌<◌, ◌≡◌, refl, arith, List, [], ◌∷◌, ◌++◌}
use qmi_go.Base.{length, take, length-append, take-append, drop-append}
use qmi_go.Base.{some, append_assoc}
use qmi_go.Qmi.Tlv.{Tlv, find_tlv}
use qmi_go.Qmi.Wds.Settings.{field}
use qmi_go.Qmi.Wds.Profiles.{ProfileInfo, read_profiles, parse_profile_list}

abbrev pub profiles_bytes : List ProfileInfo → List ℕ
profiles_bytes [] = []
profiles_bytes (p ∷ rest) =
    p.profile_type ∷ p.index ∷ length p.name ∷ (p.name ++ profiles_bytes rest)

-- A read that ends within an entry: less than its head, or less than its name.
abbrev pub IsCut : List ℕ → Type 0
IsCut bytes = length bytes < 3

read_profiles-bytes :
    (count : ℕ) (profiles : List ProfileInfo) (rest : List ℕ)
    → IsCut rest
    → read_profiles count (profiles_bytes profiles ++ rest) ≡ take count profiles
unfolding read_profiles
read_profiles-bytes zero profiles rest cut = refl
read_profiles-bytes (suc count) [] rest cut = ground arith
read_profiles-bytes (suc count) (p ∷ more) rest cut =
    let tail = profiles_bytes more ++ rest in
    ground (
      arith,
      append_assoc p.name (profiles_bytes more) rest,
      length-append p.name tail,
      take-append (length p.name) p.name tail refl,
      drop-append (length p.name) p.name tail refl,
      read_profiles-bytes count more rest cut,
    )

-- The profiles of a response, behind any count of one byte and before at most two bytes of
-- another, are read back, the first of them up to the count, whatever their names.
pub parse_profile_list-bytes :
    (count : ℕ) (profiles : List ProfileInfo) (rest : List ℕ) (tlvs : List Tlv)
    → IsCut rest
    → find_tlv tlvs 0x01
      ≡ some (record { tag = 0x01; value = count ∷ (profiles_bytes profiles ++ rest) })
    → parse_profile_list tlvs ≡ take count profiles
unfolding parse_profile_list field
parse_profile_list-bytes count profiles rest tlvs cut found =
    rw (found, parse_profile_list, field)
      (ground (arith, read_profiles-bytes count profiles rest cut))
