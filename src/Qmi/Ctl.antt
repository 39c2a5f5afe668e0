-- ===== src/Qmi/Ctl.antt =====
-- The CTL service: the service-identifier entry of pkg/qmi/frame.go, the version list of
-- pkg/qmi/ctl.go, and the version cache that pkg/qmi/client.go asks before it allocates.
pub mod Identifiers
pub mod Versions
use qmi_go.Base.{ℕ, zero, suc, ◌+◌, ◌*◌, ◌%◌, ◌/◌, List, [], ◌∷◌, Bool, true, false}
use qmi_go.Base.{length, drop, ltb, leb, ◌==◌, if◌then◌else◌, Option, none, some}
use qmi_go.Base.{Result, ok, err}
use qmi_go.Base.Words.{byte_at, u16_at, low_byte, high_byte}
use qmi_go.Base.Maps.{lookup, insert}
use qmi_go.Qmi.Tlv.{Tlv, find_tlv}

-- `byte(service)`, and with it `byte(service >> 8)` past eight bits.
unfoldable pub encode_service_only : ℕ → Tlv
encode_service_only service =
    if leb service 0xff
    then record { tag = 0x01; value = low_byte service ∷ [] }
    else record { tag = 0x01; value = low_byte service ∷ high_byte service ∷ [] }

unfoldable pub decode_service_only : List ℕ → Option ℕ
decode_service_only (a ∷ []) = some a
decode_service_only (a ∷ b ∷ []) = some (u16_at (a ∷ b ∷ []) 0)
decode_service_only other = none

unfoldable pub encode_service_client : ℕ → ℕ → Tlv
encode_service_client service client_id =
    if leb service 0xff
    then record { tag = 0x01; value = low_byte service ∷ client_id ∷ [] }
    else record { tag = 0x01; value = low_byte service ∷ high_byte service ∷ client_id ∷ [] }

unfoldable pub decode_service_client : List ℕ → Option (ℕ × ℕ)
decode_service_client (a ∷ b ∷ []) = some (a, b)
decode_service_client (a ∷ b ∷ c ∷ []) = some (u16_at (a ∷ b ∷ []) 0, c)
decode_service_client other = none

pub record ServiceVersion : Type 0 where
  pub service_type : ℕ
  pub major : ℕ
  pub minor : ℕ

pub data VersionError : Type 0 where
  missing_list short_list truncated_list : VersionError

abbrev pub entry_size : ℕ
entry_size = 5

-- The loop over `count` entries; the list is the value from the entry's offset on.
unfoldable pub read_versions : ℕ → List ℕ → List ServiceVersion
read_versions zero bytes = []
read_versions (suc count) bytes =
    record { service_type = byte_at bytes 0; major = u16_at bytes 1; minor = u16_at bytes 3 }
    ∷ read_versions count (drop entry_size bytes)

unfoldable pub parse_service_version_list : List Tlv → Result VersionError (List ServiceVersion)
parse_service_version_list tlvs = elim (find_tlv tlvs 0x01) [
  | none ↦ err missing_list
  | some t ↦
      if ltb (length t.value) 1
      then err short_list
      else if ltb (length t.value) (1 + byte_at t.value 0 * entry_size)
      then err truncated_list
      else ok (read_versions (byte_at t.value 0) (drop 1 t.value))
]

abbrev pub VersionMap : Type 0
VersionMap = List (ℕ × ServiceVersion)

-- `m[v.ServiceType] = v` over the slice.
unfoldable pub add_versions : VersionMap → List ServiceVersion → VersionMap
add_versions m [] = m
add_versions m (v ∷ rest) = add_versions (insert v.service_type v m) rest

unfoldable pub service_version_map : List ServiceVersion → VersionMap
unfolding add_versions
service_version_map versions = add_versions [] versions

-- `serviceVersions` and `versionQueried`: none until the list has been queried.
unfoldable pub has_service : Option VersionMap → ℕ → Bool
has_service none service = true
has_service (some m) service =
    if ltb 0xff service
    then true
    else elim (lookup (service % 256) m) [ none ↦ false | some v ↦ true ]

-- `ensureServiceAllocatable`: true is a nil error, false is `ErrServiceNotSupported`.
unfoldable pub ensure_service_allocatable : Option VersionMap → ℕ → Bool
ensure_service_allocatable none service = true
ensure_service_allocatable (some m) service =
    if ltb 0xff service
    then true
    else elim (lookup (service % 256) m) [ some v ↦ true | none ↦ false ]
