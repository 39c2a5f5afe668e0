-- ===== src/Qmi/Wds/Profiles.antt =====
-- pkg/qmi/wds.go: the list of profiles, their settings, and the choice of the one for IMS.
use qmi_go.Base.{ℕ, zero, suc, ◌+◌, List, [], ◌∷◌, Bool, true, false, not, ◌&&◌, ◌||◌}
use qmi_go.Base.{length, take, drop, ltb, leb, ◌==◌, if◌then◌else◌, Option, none, some, Result, ok}
use qmi_go.Base.Words.{byte_at}
use qmi_go.Qmi.Tlv.{Tlv}
use qmi_go.Qmi.Packet.{Packet}
use qmi_go.Qmi.Request.{ServiceError, checked, with_entry}
use qmi_go.Qmi.Wms.Responses.{trim_space}
use qmi_go.Qmi.Wds.{is_text}
use qmi_go.Qmi.Wds.Settings.{field}

pub record ProfileInfo : Type 0 where
  pub profile_type : ℕ
  pub index : ℕ
  pub name : List ℕ

-- The loop over the profiles; the list is the value from the offset on.
unfoldable pub read_profiles : ℕ → List ℕ → List ProfileInfo
read_profiles zero bytes = []
read_profiles (suc count) bytes =
    let size = byte_at bytes 2 in
    elim (ltb (length bytes) 3 || ltb (length bytes) (3 + size)) [
      | true ↦ []
      | false ↦
          record {
            profile_type = byte_at bytes 0;
            index = byte_at bytes 1;
            name = take size (drop 3 bytes);
          }
          ∷ read_profiles count (drop (3 + size) bytes)
    ]

unfoldable pub parse_profile_list : List Tlv → List ProfileInfo
unfolding read_profiles
parse_profile_list = field 0x01 1 [] (λ value. read_profiles (byte_at value 0) (drop 1 value))

pub record ProfileSettings : Type 0 where
  pub name : List ℕ
  pub apn : List ℕ
  pub pdp_type : ℕ
  pub has_pdp_type : Bool
  pub imcn_flag : Bool
  pub has_imcn_flag : Bool

unfoldable pub parse_profile_settings : List Tlv → ProfileSettings
parse_profile_settings tlvs = record {
  name = field 0x10 0 [] (λ v. v) tlvs;
  apn = field 0x14 0 [] (λ v. v) tlvs;
  pdp_type = field 0x11 1 0 (λ v. byte_at v 0) tlvs;
  has_pdp_type = field 0x11 1 false (λ v. true) tlvs;
  imcn_flag = field 0x22 1 false (λ v. not (byte_at v 0 == 0)) tlvs;
  has_imcn_flag = field 0x22 1 false (λ v. true) tlvs;
}

-- strings.EqualFold on bytes below 128.
unfoldable pub fold_case : ℕ → ℕ
fold_case b = if leb 0x41 b && leb b 0x5a then b + 32 else b

unfoldable pub equal_fold : List ℕ → List ℕ → Bool
unfolding fold_case
equal_fold [] [] = true
equal_fold [] (b ∷ t) = false
equal_fold (a ∷ s) [] = false
equal_fold (a ∷ s) (b ∷ t) = fold_case a == fold_case b && equal_fold s t

-- The two tests of the loop, on the settings that were read.
unfoldable pub is_ims : ProfileSettings → Bool
is_ims ps = ps.has_imcn_flag && ps.imcn_flag

unfoldable pub matches_apn : List ℕ → ProfileSettings → Bool
matches_apn hint ps = is_text hint && equal_fold (trim_space ps.apn) hint

-- The loop, with `apnMatch` and `hasAPNMatch`; `settings_for` is none where the read fails.
unfoldable pub pick_loop :
    (ProfileInfo → Option ProfileSettings) → List ℕ → Option ℕ → List ProfileInfo → Option ℕ
pick_loop settings_for hint apn_match [] = apn_match
pick_loop settings_for hint apn_match (p ∷ rest) = elim (settings_for p) [
  | none ↦ pick_loop settings_for hint apn_match rest
  | some ps ↦
      let later =
        pick_loop settings_for hint
          (elim apn_match [
            | none ↦ if matches_apn hint ps then some p.index else none
            | some index ↦ some index
          ])
          rest in
      if is_ims ps then some p.index else later
]

unfoldable pub pick_ims_profile_index :
    List ProfileInfo → (ProfileInfo → Option ProfileSettings) → List ℕ → Option ℕ
unfolding pick_loop
pick_ims_profile_index profiles settings_for hint =
    pick_loop settings_for (trim_space hint) none profiles

unfoldable pub parse_create_profile_response : List ℕ → Packet → Result ServiceError ProfileInfo
parse_create_profile_response name = checked (
    with_entry 0x01 2
      (λ v. ok (record { profile_type = byte_at v 0; index = byte_at v 1; name = name })))
