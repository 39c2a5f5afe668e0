-- ===== src/Tests/DataService.antt =====
-- The data service of pkg/qmi/wds.go.
use qmi_go.Base.{ℕ, ◌≡◌, refl, arith, List, [], ◌∷◌, ◌++◌, true, false, none, some, Option}
use qmi_go.Qmi.Tlv.{find_tlv}
use qmi_go.Qmi.Wds.{StartRequest, start_tlvs, is_text}
use qmi_go.Qmi.Wds.Settings.{
  pcscf_v4_of, pcscf_v6_of, pcscf_domains_of, parse_ipv6_delegated_prefix_address,
  looks_like_delegated_prefix, swap_words,
}
use qmi_go.Qmi.Wds.Profiles.{
  ProfileInfo, ProfileSettings, pick_ims_profile_index, is_ims, matches_apn,
}
use qmi_go.Qmi.Wms.Responses.{trim_space}
use qmi_go.Qmi.Wds.Entries.{entry_when, start_tlvs-entries}
use qmi_go.Base.Words.{low_byte, high_byte}
use qmi_go.Qmi.Wds.Addresses.{joined, domains_bytes, in_text, pcscf_lists-entries}
use qmi_go.Qmi.Wds.ImsProfile.{first_index, or_else_index, pick_ims_profile_index-first}

-- The bytes of "ims".
abbrev ims_apn : List ℕ
ims_apn = 0x69 ∷ 0x6d ∷ 0x73 ∷ []

abbrev ims_start : StartRequest
ims_start = record {
  apn = ims_apn;
  username = [];
  password = [];
  auth_type = 0;
  ip_family = 6;
  profile_index = 2;
  technology_preference = 0x8000;
  call_type = 1;
  has_call_type = false;
}

start_tlvs-entries_example :
    let tlvs = start_tlvs ims_start true in
    (find_tlv tlvs 0x14 ≡ entry_when (is_text ims_apn) 0x14 ims_apn)
    × (find_tlv tlvs 0x17 ≡ entry_when (is_text []) 0x17 [])
    × (find_tlv tlvs 0x18 ≡ entry_when (is_text []) 0x18 [])
    × (find_tlv tlvs 0x16 ≡ some (record { tag = 0x16; value = 0 ∷ [] }))
    × (find_tlv tlvs 0x19 ≡ some (record { tag = 0x19; value = 6 ∷ [] }))
    × (find_tlv tlvs 0x31 ≡ some (record { tag = 0x31; value = 2 ∷ [] }))
    × (find_tlv tlvs 0x34 ≡ some (record { tag = 0x34; value = 0x00 ∷ 0x80 ∷ [] }))
    × (find_tlv tlvs 0x35 ≡ none)
start_tlvs-entries_example = start_tlvs-entries ims_start true

abbrev two_profiles : List ProfileInfo
two_profiles =
    record { profile_type = 0; index = 1; name = 0x61 ∷ [] }
    ∷ record { profile_type = 0; index = 2; name = ims_apn }
    ∷ []

pcscf_lists-entries_example :
    (pcscf_v4_of (2 ∷ (joined ((1 ∷ 0 ∷ 0 ∷ 10 ∷ []) ∷ []) ++ (7 ∷ [])))
      ≡ (10 ∷ 0 ∷ 0 ∷ 1 ∷ []) ∷ [])
    × (pcscf_v6_of (2 ∷ []) ≡ [])
    × (pcscf_domains_of (2 ∷ (domains_bytes (ims_apn ∷ []) ++ (low_byte 3 ∷ high_byte 3 ∷ 9 ∷ [])))
        ≡ ims_apn ∷ [])
pcscf_lists-entries_example =
    pcscf_lists-entries 2 ((1 ∷ 0 ∷ 0 ∷ 10 ∷ []) ∷ []) [] (ims_apn ∷ []) (7 ∷ []) []
      (low_byte 3 ∷ high_byte 3 ∷ 9 ∷ []) (refl, tt) tt (omega arith, tt) (omega arith)
      (omega arith) (in_text {n = 3} {text = 9 ∷ []} (omega arith) (omega arith))

-- No profile is marked, and the second has the APN.
abbrev settings_of : ProfileInfo → Option ProfileSettings
settings_of p = some (record {
  name = p.name;
  apn = p.name;
  pdp_type = 0;
  has_pdp_type = false;
  imcn_flag = false;
  has_imcn_flag = true;
})

pick_ims_profile_index-first_example :
    pick_ims_profile_index two_profiles settings_of ims_apn
    ≡ or_else_index
        (first_index is_ims settings_of two_profiles)
        (first_index (matches_apn (trim_space ims_apn)) settings_of two_profiles)
pick_ims_profile_index-first_example = pick_ims_profile_index-first two_profiles settings_of ims_apn

-- The prefix 2620:fe::, written in words of the other order, reads as 2026:.
abbrev prefix : List ℕ
prefix = 0x26 ∷ 0x20 ∷ 0x00 ∷ 0xfe ∷ 0 ∷ 0 ∷ 0 ∷ 0 ∷ 0 ∷ 0 ∷ 0 ∷ 0 ∷ 0 ∷ 0 ∷ 0 ∷ 0 ∷ []

swapped_prefix : parse_ipv6_delegated_prefix_address (swap_words prefix) ≡ swap_words prefix
unfolding parse_ipv6_delegated_prefix_address looks_like_delegated_prefix swap_words
swapped_prefix = refl
