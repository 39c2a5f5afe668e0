-- ===== src/Qmi/Wds/ImsProfile.antt =====
-- pickIMSProfileIndex of pkg/qmi/wds.go: two searches in one loop.
use qmi_go.Base.{ℕ, ◌≡◌, refl, List, [], ◌∷◌, Bool, true, false}
use qmi_go.Base.{Option, none, some, if◌then◌else◌, Option-cases, inl, inr}
use qmi_go.Qmi.Wms.Responses.{trim_space}
use qmi_go.Qmi.Wds.Profiles.{
  ProfileInfo, ProfileSettings, is_ims, matches_apn, pick_loop, pick_ims_profile_index,
}

abbrev pub holds : (ProfileSettings → Bool) → Option ProfileSettings → Bool
holds test none = false
holds test (some ps) = test ps

-- The first profile whose settings could be read and pass the test.
unfoldable pub first_index :
    (ProfileSettings → Bool) → (ProfileInfo → Option ProfileSettings) → List ProfileInfo → Option ℕ
first_index test settings_for [] = none
first_index test settings_for (p ∷ rest) =
    let later = first_index test settings_for rest in
    if holds test (settings_for p) then some p.index else later

abbrev pub or_else_index : Option ℕ → Option ℕ → Option ℕ
or_else_index none second = second
or_else_index (some index) second = some index

abbrev noted : Option ℕ → Bool → ℕ → Option ℕ
noted found matched i = elim found [ none ↦ if matched then some i else none | some j ↦ some j ]

-- One round: what it marks and what it notes are the heads of the two searches.
one_profile :
    (marked matched : Bool) (i : ℕ) (found first_ims first_apn later : Option ℕ)
    → later ≡ or_else_index first_ims (or_else_index (noted found matched i) first_apn)
    → (if marked then some i else later)
      ≡ or_else_index
          (if marked then some i else first_ims)
          (or_else_index found (if matched then some i else first_apn))
one_profile true matched i found first_ims first_apn later h = refl
one_profile false matched i (some j) first_ims first_apn later h = h
one_profile false true i none first_ims first_apn later h = h
one_profile false false i none first_ims first_apn later h = h

pick_loop-first_index :
    (settings_for : ProfileInfo → Option ProfileSettings) (hint : List ℕ) (found : Option ℕ)
    (profiles : List ProfileInfo)
    → pick_loop settings_for hint found profiles
      ≡ or_else_index
          (first_index is_ims settings_for profiles)
          (or_else_index found (first_index (matches_apn hint) settings_for profiles))
unfolding pick_loop first_index
pick_loop-first_index settings_for hint none [] = refl
pick_loop-first_index settings_for hint (some i) [] = refl
pick_loop-first_index settings_for hint found (p ∷ rest) = elim (Option-cases (settings_for p)) [
  | inl unread ↦
      rw (unread, pick_loop, first_index) (pick_loop-first_index settings_for hint found rest)
  | inr (ps, read) ↦
      rw (read, pick_loop, first_index)
        (one_profile (is_ims ps) (matches_apn hint ps) p.index found
          (first_index is_ims settings_for rest) (first_index (matches_apn hint) settings_for rest)
          (pick_loop settings_for hint (noted found (matches_apn hint ps) p.index) rest)
          (pick_loop-first_index settings_for hint (noted found (matches_apn hint ps) p.index)
            rest))
]

-- The profile for IMS is the first that the modem marks for it; if there is none, the first whose
-- APN is the hint, without spaces around and with any case, where there is a hint; profiles whose
-- settings cannot be read count for neither.
pub pick_ims_profile_index-first :
    (profiles : List ProfileInfo) (settings_for : ProfileInfo → Option ProfileSettings)
    (hint : List ℕ)
    → pick_ims_profile_index profiles settings_for hint
      ≡ or_else_index
          (first_index is_ims settings_for profiles)
          (first_index (matches_apn (trim_space hint)) settings_for profiles)
unfolding pick_ims_profile_index
pick_ims_profile_index-first profiles settings_for hint =
    pick_loop-first_index settings_for (trim_space hint) none profiles
