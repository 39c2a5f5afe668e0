-- ===== src/Qmi/Wds.antt =====
-- pkg/qmi/wds.go: the data service, its types and the entries of its requests. A string is the list of
-- its bytes.
pub mod Settings
pub mod Profiles
pub mod Calls
pub mod Entries
pub mod Addresses
pub mod Listed
pub mod ImsProfile
use Prim.Native.String.{String}
use qmi_go.Base.{ℕ, List, [], ◌∷◌, ◌++◌, Bool, true, false, not, ltb, ◌==◌, if◌then◌else◌, ◌&&◌}
use qmi_go.Base.{Option, none, some}
use qmi_go.Base.Words.{low_byte, high_byte, put_u32}
use qmi_go.Qmi.Tlv.{Tlv}
use qmi_go.Qmi.Request.{new_tlv_uint8, new_tlv_uint16, new_tlv_uint32}

abbrev pub service_wds : ℕ
service_wds = 0x01

abbrev pub any_packet_data_handle : ℕ
any_packet_data_handle = 4294967295

pub record CallEndReason : Type 0 where
  pub reason_type : ℕ
  pub code : ℕ

abbrev pub call_end_reason_type_internal : ℕ
call_end_reason_type_internal = 2

abbrev is_internal : Option CallEndReason → (ℕ → Bool) → Bool
is_internal none test = false
is_internal (some r) test = r.reason_type == call_end_reason_type_internal && test r.code

unfoldable pub is_interface_in_use_config_match : Option CallEndReason → Bool
is_interface_in_use_config_match r = is_internal r (λ code. code == 241)

unfoldable pub is_ip_family_disallowed : Option CallEndReason → Bool
is_ip_family_disallowed r =
    is_internal r (λ code. if code == 208 then true else if code == 210 then true else code == 231)

unfoldable pub is_aborted_by_card_event : Option CallEndReason → Bool
is_aborted_by_card_event r = is_internal r (λ code. code == 218)

-- ConnectionStatus.String.
unfoldable pub connection_status_text : ℕ → String
connection_status_text s =
    if s == 1
    then "disconnected"
    else if s == 2
    then "connected"
    else if s == 3
    then "suspended"
    else if s == 4
    then "authenticating"
    else "unknown"

-- What a start asks for: the arguments of `startNetworkInterface` and the fields of the service.
pub record StartRequest : Type 0 where
  pub apn : List ℕ
  pub username : List ℕ
  pub password : List ℕ
  pub auth_type : ℕ
  pub ip_family : ℕ
  pub profile_index : ℕ
  pub technology_preference : ℕ
  pub call_type : ℕ
  pub has_call_type : Bool

-- `if present { tlvs = append(tlvs, TLV{tag, value}) }`
abbrev pub entry_if : Bool → ℕ → List ℕ → List Tlv
entry_if present tag value = if present then record { tag = tag; value = value } ∷ [] else []

-- `s != ""`
unfoldable pub is_text : List ℕ → Bool
is_text [] = false
is_text (b ∷ rest) = true

-- One such statement, and a row of them.
abbrev pub Field : Type 0
Field = Bool × ℕ × List ℕ

abbrev pub append_entries : List Field → List Tlv
append_entries [] = []
append_entries ((present, tag, value) ∷ rest) = entry_if present tag value ++ append_entries rest

abbrev pub start_fields : StartRequest → List Field
start_fields r =
    (is_text r.apn, 0x14, r.apn)
    ∷ (is_text r.username, 0x17, r.username)
    ∷ (is_text r.password, 0x18, r.password)
    ∷ (not (r.auth_type == 0), 0x16, r.auth_type ∷ [])
    ∷ (true, 0x19, r.ip_family ∷ [])
    ∷ (ltb 0 r.profile_index, 0x31, r.profile_index ∷ [])
    ∷ (
      ltb 0 r.technology_preference,
      0x34,
      low_byte r.technology_preference ∷ high_byte r.technology_preference ∷ [],
    )
    ∷ (r.has_call_type, 0x35, r.call_type ∷ [])
    ∷ []

unfoldable pub build_start_network_tlvs : StartRequest → List Tlv
build_start_network_tlvs r = append_entries (start_fields r)

-- The entries of `startNetworkInterface`, which can name the absence of authentication.
unfoldable pub start_tlvs : StartRequest → Bool → List Tlv
unfolding build_start_network_tlvs
start_tlvs r explicit_auth =
    build_start_network_tlvs r ++ entry_if (explicit_auth && r.auth_type == 0) 0x16 (0 ∷ [])

unfoldable pub build_stop_network_interface_tlvs : ℕ → Bool → List Tlv
build_stop_network_interface_tlvs handle disable_autoconnect =
    new_tlv_uint32 0x01 handle ∷ entry_if disable_autoconnect 0x10 (1 ∷ [])

pub record MuxBinding : Type 0 where
  pub ep_type : ℕ
  pub ep_if_id : ℕ
  pub mux_id : ℕ
  pub client_type : ℕ

unfoldable pub bind_mux_tlvs : MuxBinding → List Tlv
bind_mux_tlvs b =
    record { tag = 0x10; value = put_u32 b.ep_type (put_u32 b.ep_if_id []) }
    ∷ new_tlv_uint8 0x11 b.mux_id
    ∷ entry_if (ltb 0 b.client_type) 0x13 (put_u32 b.client_type [])

pub record WdsProfileSettings : Type 0 where
  pub name : List ℕ
  pub apn : List ℕ
  pub pdp_type : ℕ
  pub has_pdp_type : Bool
  pub username : List ℕ
  pub password : List ℕ
  pub authentication : ℕ
  pub has_authentication : Bool

unfoldable pub build_profile_settings_tlvs : WdsProfileSettings → List Tlv
build_profile_settings_tlvs s = append_entries (
    (is_text s.name, 0x10, s.name)
    ∷ (s.has_pdp_type, 0x11, s.pdp_type ∷ [])
    ∷ (is_text s.apn, 0x14, s.apn)
    ∷ (is_text s.username, 0x1b, s.username)
    ∷ (is_text s.password, 0x1c, s.password)
    ∷ (s.has_authentication, 0x1d, s.authentication ∷ [])
    ∷ [])

unfoldable pub build_profile_identifier_tlv : ℕ → ℕ → Tlv
build_profile_identifier_tlv profile_type profile_index = record {
  tag = 0x01;
  value = profile_type ∷ profile_index ∷ [];
}
