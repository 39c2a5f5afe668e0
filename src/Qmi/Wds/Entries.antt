-- ===== src/Qmi/Wds/Entries.antt =====
-- The entries of the request that starts a data call: each setting stands under its number.
use qmi_go.Base.{ℕ, ◌≡◌, refl, sym, ap, ◌∙◌, arith, List, [], ◌∷◌, ◌++◌, append-nil}
use qmi_go.Base.{Bool, true, false, not, ◌&&◌, ◌||◌, ◌==◌, ltb, if◌then◌else◌, Option, none, some}
use qmi_go.Base.{Bool-cases, inl, inr, ==→eq, subst}
use qmi_go.Base.Words.{low_byte, high_byte}
use qmi_go.Qmi.Tlv.{Tlv, find_tlv}
use qmi_go.Qmi.Wds.{
  StartRequest, Field, entry_if, append_entries, start_fields, start_tlvs, is_text,
  build_start_network_tlvs,
}

-- The first field of that number that is present.
abbrev find_field : List Field → ℕ → Option Tlv
find_field [] wanted = none
find_field ((present, tag, value) ∷ rest) wanted =
    let more = find_field rest wanted in
    if tag == wanted && present then some (record { tag = tag; value = value }) else more

find_tlv-append_entries :
    (fields : List Field) (wanted : ℕ)
    → find_tlv (append_entries fields) wanted ≡ find_field fields wanted
unfolding find_tlv
find_tlv-append_entries [] wanted = refl
find_tlv-append_entries ((true, tag, value) ∷ rest) wanted =
    ground (arith, find_tlv-append_entries rest wanted)
find_tlv-append_entries ((false, tag, value) ∷ rest) wanted =
    find_tlv-append_entries rest wanted ∙ ground arith

append_entries-append :
    (fields more : List Field)
    → append_entries (fields ++ more) ≡ append_entries fields ++ append_entries more
append_entries-append [] more = refl
append_entries-append ((true, tag, value) ∷ rest) more =
    ap (◌∷◌ (record { tag = tag; value = value })) (append_entries-append rest more)
append_entries-append ((false, tag, value) ∷ rest) more = append_entries-append rest more

abbrev explicit_field : StartRequest → Bool → Field
explicit_field r explicit_auth = (explicit_auth && r.auth_type == 0, 0x16, 0 ∷ [])

find_tlv-start_tlvs :
    (r : StartRequest) (explicit_auth : Bool) (wanted : ℕ)
    → find_tlv (start_tlvs r explicit_auth) wanted
      ≡ find_field (start_fields r ++ (explicit_field r explicit_auth ∷ [])) wanted
unfolding start_tlvs build_start_network_tlvs
find_tlv-start_tlvs r explicit_auth wanted =
    ap (λ (tlvs : List Tlv). find_tlv tlvs wanted)
      (ap (λ (last : List Tlv). append_entries (start_fields r) ++ last)
          (sym (append-nil (entry_if (explicit_auth && r.auth_type == 0) 0x16 (0 ∷ []))))
        ∙ sym (append_entries-append (start_fields r) (explicit_field r explicit_auth ∷ [])))
    ∙ find_tlv-append_entries (start_fields r ++ (explicit_field r explicit_auth ∷ [])) wanted

-- An entry of that number and value, where there is one.
abbrev pub entry_when : Bool → ℕ → List ℕ → Option Tlv
entry_when present tag value = if present then some (record { tag = tag; value = value }) else none

abbrev named : ℕ → Bool → Option Tlv
named auth_type explicit_auth =
    if not (auth_type == 0)
    then some (record { tag = 0x16; value = auth_type ∷ [] })
    else if explicit_auth && auth_type == 0
    then some (record { tag = 0x16; value = 0 ∷ [] })
    else none

abbrev AuthEntry : Bool → ℕ → Type 0
AuthEntry explicit_auth auth_type =
    named auth_type explicit_auth
    ≡ entry_when (not (auth_type == 0) || explicit_auth) 0x16 (auth_type ∷ [])

zero-AuthEntry : (explicit_auth : Bool) → AuthEntry explicit_auth 0
zero-AuthEntry true = refl
zero-AuthEntry false = refl

-- Authentication is named when there is one, or when its absence is asked for.
auth_type-AuthEntry : (auth_type : ℕ) (explicit_auth : Bool) → AuthEntry explicit_auth auth_type
auth_type-AuthEntry auth_type explicit_auth = elim (Bool-cases (auth_type == 0)) [
  | inl is_zero ↦
      subst (AuthEntry explicit_auth) (sym (==→eq auth_type 0 is_zero))
        (zero-AuthEntry explicit_auth)
  | inr some_type ↦ rw some_type refl
]

-- Each setting of a start stands in the request under its own number, and is left out where it is
-- empty or not set; the type of the authentication is there where it is not zero, and also as a
-- zero where that is asked for explicitly.
pub start_tlvs-entries :
    (r : StartRequest) (explicit_auth : Bool)
    → let tlvs = start_tlvs r explicit_auth in
      (find_tlv tlvs 0x14 ≡ entry_when (is_text r.apn) 0x14 r.apn)
      × (find_tlv tlvs 0x17 ≡ entry_when (is_text r.username) 0x17 r.username)
      × (find_tlv tlvs 0x18 ≡ entry_when (is_text r.password) 0x18 r.password)
      × (find_tlv tlvs 0x16
          ≡ entry_when (not (r.auth_type == 0) || explicit_auth) 0x16 (r.auth_type ∷ []))
      × (find_tlv tlvs 0x19 ≡ some (record { tag = 0x19; value = r.ip_family ∷ [] }))
      × (find_tlv tlvs 0x31 ≡ entry_when (ltb 0 r.profile_index) 0x31 (r.profile_index ∷ []))
      × (find_tlv tlvs 0x34
          ≡ entry_when
              (ltb 0 r.technology_preference)
              0x34
              (low_byte r.technology_preference ∷ high_byte r.technology_preference ∷ []))
      × (find_tlv tlvs 0x35 ≡ entry_when r.has_call_type 0x35 (r.call_type ∷ []))
start_tlvs-entries r explicit_auth = (
  find_tlv-start_tlvs r explicit_auth 0x14,
  find_tlv-start_tlvs r explicit_auth 0x17,
  find_tlv-start_tlvs r explicit_auth 0x18,
  find_tlv-start_tlvs r explicit_auth 0x16 ∙ auth_type-AuthEntry r.auth_type explicit_auth,
  find_tlv-start_tlvs r explicit_auth 0x19,
  find_tlv-start_tlvs r explicit_auth 0x31,
  find_tlv-start_tlvs r explicit_auth 0x34,
  find_tlv-start_tlvs r explicit_auth 0x35,
)
