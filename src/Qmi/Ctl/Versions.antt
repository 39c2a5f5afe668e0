-- ===== src/Qmi/Ctl/Versions.antt =====
-- The version list and the cache that is made of it.
use qmi_go.Base.{ℕ, ◌*◌, ◌≡◌, refl, ap, ◌∙◌, arith}
use qmi_go.Base.{List, [], ◌∷◌, ◌++◌, length, length-append, All, ok}
use qmi_go.Base.{Option, none, some, ◌==◌, if◌then◌else◌}
use qmi_go.Base.Words.{IsByte, IsU16, low_byte, high_byte}
use qmi_go.Base.Maps.{lookup, insert, lookup-insert}
use qmi_go.Qmi.Tlv.{Tlv, find_tlv}
use qmi_go.Qmi.Ctl.{
  ServiceVersion, read_versions, parse_service_version_list, VersionMap, add_versions,
  service_version_map,
}

-- The entry of one service, as the message has it.
abbrev pub version_bytes : ServiceVersion → List ℕ
version_bytes v =
    v.service_type
    ∷ low_byte v.major
    ∷ high_byte v.major
    ∷ low_byte v.minor
    ∷ high_byte v.minor
    ∷ []

abbrev pub versions_bytes : List ServiceVersion → List ℕ
versions_bytes [] = []
versions_bytes (v ∷ rest) = version_bytes v ++ versions_bytes rest

pub record IsVersion (v : ServiceVersion) : Type 0 where
  pub service_fits : IsByte v.service_type
  pub major_fits : IsU16 v.major
  pub minor_fits : IsU16 v.minor

pub read_versions-bytes :
    (vs : List ServiceVersion) (tail : List ℕ)
    → All IsVersion vs
    → read_versions (length vs) (versions_bytes vs ++ tail) ≡ vs
unfolding read_versions
read_versions-bytes [] tail h = refl
read_versions-bytes (v ∷ vs) tail h = ground (arith, h.0, read_versions-bytes vs tail h.1)

pub length-versions_bytes : (vs : List ServiceVersion) → length (versions_bytes vs) ≡ length vs * 5
length-versions_bytes [] = refl
length-versions_bytes (v ∷ vs) = omega (arith, length-versions_bytes vs)

-- A list of at most 255 services, written as the message has it and followed by anything, reads
-- back in its order.
pub parse_service_version_list-bytes :
    (vs : List ServiceVersion) (tail : List ℕ) (tlvs : List Tlv)
    → All IsVersion vs
    → find_tlv tlvs 0x01
      ≡ some (record { tag = 0x01; value = length vs ∷ (versions_bytes vs ++ tail) })
    → parse_service_version_list tlvs ≡ ok vs
unfolding parse_service_version_list
parse_service_version_list-bytes vs tail tlvs h found = ground (
  arith,
  length-append (versions_bytes vs) tail,
  length-versions_bytes vs,
  read_versions-bytes vs tail h,
)

-- The last entry of a service wins.
abbrev pub last_version : ℕ → List ServiceVersion → Option ServiceVersion → Option ServiceVersion
last_version service [] found = found
last_version service (v ∷ rest) found =
    last_version service rest (if v.service_type == service then some v else found)

lookup-add_versions :
    (service : ℕ) (vs : List ServiceVersion) (m : VersionMap)
    → lookup service (add_versions m vs) ≡ last_version service vs (lookup service m)
unfolding add_versions
lookup-add_versions service [] m = refl
lookup-add_versions service (v ∷ vs) m =
    lookup-add_versions service vs (insert v.service_type v m)
    ∙ ap (last_version service vs) (lookup-insert v.service_type service v m)

-- The map holds for each service the last entry that names it.
pub lookup-service_version_map :
    (service : ℕ) (vs : List ServiceVersion)
    → lookup service (service_version_map vs) ≡ last_version service vs none
unfolding service_version_map
lookup-service_version_map service vs = lookup-add_versions service vs [] ∙ unfold lookup in refl
