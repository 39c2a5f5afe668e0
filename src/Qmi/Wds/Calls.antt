-- ===== src/Qmi/Wds/Calls.antt =====
-- pkg/qmi/wds.go: the methods of WDSService for the data call, its settings and the profiles. How a
-- request is answered, and what state it leaves, is an argument.
use qmi_go.Base.{ℕ, List, [], ◌∷◌, Bool, true, false, Option, none, some, Result, ok, err}
use qmi_go.Base.{length, ◌==◌, if◌then◌else◌}
use qmi_go.Base.Words.{u16_at, u32_at, byte_at}
use qmi_go.Qmi.Tlv.{Tlv}
use qmi_go.Qmi.Packet.{Packet, CheckError, missing_result, qmi_error, check_result}
use qmi_go.Qmi.Client.{Cause}
use qmi_go.Qmi.Request.{
  Request, Sender, ServiceError, request_failed, exchange, checked, accept, with_entry, try_in_turn,
  new_tlv_uint8, new_tlv_uint32,
}
use qmi_go.Qmi.Wds.{
  service_wds, any_packet_data_handle, CallEndReason, StartRequest, start_tlvs,
  build_stop_network_interface_tlvs, MuxBinding, bind_mux_tlvs, WdsProfileSettings,
  build_profile_settings_tlvs, build_profile_identifier_tlv,
}
use qmi_go.Qmi.Wds.Settings.{RuntimeSettings, parse_runtime_settings, field}
use qmi_go.Qmi.Wds.Profiles.{
  ProfileInfo, ProfileSettings, parse_profile_list, parse_profile_settings,
  parse_create_profile_response,
}

-- One request of a client of the service with that number.
unfoldable pub wds_request : ℕ → ℕ → List Tlv → Request
wds_request client_id message_id tlvs = record {
  service = service_wds;
  client_id = client_id;
  message_id = message_id;
  tlvs = tlvs;
}

unfoldable pub wds_call :
    {S A : Type 0}
    → Sender S
    → ℕ
    → ℕ
    → (Packet → Result ServiceError A)
    → S
    → List Tlv
    → Result ServiceError A × S
wds_call send client_id message_id parse s tlvs =
    exchange send parse s (wds_request client_id message_id tlvs)

unfoldable pub set_ip_family_preference :
    {S : Type 0} → Sender S → ℕ → S → ℕ → Result ServiceError (Unit {0}) × S
set_ip_family_preference send client_id s ip_family =
    wds_call send client_id 0x004d (checked accept) s (new_tlv_uint8 0x01 ip_family ∷ [])

-- The errors of `startNetworkInterface`.
pub data StartError : Type 0 where
  start_failed : Cause → StartError
  start_network : CheckError → Option CallEndReason → StartError
  no_handle : StartError

unfoldable pub call_end_reason : List Tlv → Option CallEndReason
call_end_reason =
    field 0x11 4 none (λ v. some (record { reason_type = u16_at v 0; code = u16_at v 2 }))

unfoldable pub handle_of : List Tlv → Result StartError ℕ
handle_of = field 0x01 4 (err no_handle) (λ v. ok (u32_at v 0))

unfoldable pub start_reply : Result Cause Packet → Result StartError ℕ
unfolding call_end_reason handle_of
start_reply (err e) = err (start_failed e)
start_reply (ok resp) = elim (check_result resp) [
  | some e ↦ err (start_network e (call_end_reason resp.tlvs))
  | none ↦ handle_of resp.tlvs
]

-- The failure of the first request is passed over.
unfoldable pub start_network_interface :
    {S : Type 0} → Sender S → ℕ → S → StartRequest → Bool → Result StartError ℕ × S
unfolding set_ip_family_preference
start_network_interface send client_id s r explicit_auth =
    let t = (set_ip_family_preference send client_id s r.ip_family).1 in
    let answer = send t (wds_request client_id 0x0020 (start_tlvs r explicit_auth)) in
    (start_reply answer.0, answer.1)

unfoldable pub stop_network_interface_with_options :
    {S : Type 0} → Sender S → ℕ → S → ℕ → Bool → Result ServiceError (Unit {0}) × S
stop_network_interface_with_options send client_id s handle disable_autoconnect =
    wds_call send client_id 0x0021 (checked accept) s
      (build_stop_network_interface_tlvs handle disable_autoconnect)

unfoldable pub stop_network_interface :
    {S : Type 0} → Sender S → ℕ → S → ℕ → Result ServiceError (Unit {0}) × S
stop_network_interface send client_id s handle =
    stop_network_interface_with_options send client_id s handle false

unfoldable pub stop_any_network_interface :
    {S : Type 0} → Sender S → ℕ → S → Bool → Result ServiceError (Unit {0}) × S
stop_any_network_interface send client_id s disable_autoconnect =
    stop_network_interface_with_options send client_id s any_packet_data_handle disable_autoconnect

-- The entry is looked for with and without `CheckResult` in front.
unfoldable pub parse_packet_service_status_packet : Bool → Packet → Result ServiceError ℕ
parse_packet_service_status_packet true = checked (with_entry 0x01 1 (λ v. ok (byte_at v 0)))
parse_packet_service_status_packet false = with_entry 0x01 1 (λ v. ok (byte_at v 0))

unfoldable pub get_packet_service_status :
    {S : Type 0} → Sender S → ℕ → S → Result ServiceError ℕ × S
get_packet_service_status send client_id s =
    wds_call send client_id 0x0022 (parse_packet_service_status_packet true) s []

pub data SettingsError : Type 0 where
  settings_failed : ServiceError → SettingsError
  settings_refused : CheckError → SettingsError
  out_of_call : SettingsError

-- `QMIErrOutOfCall`
abbrev pub settings_error : CheckError → SettingsError
settings_error missing_result = settings_refused missing_result
settings_error (qmi_error e) =
    if e.error_code == 0x000f then out_of_call else settings_refused (qmi_error e)

unfoldable pub settings_reply : Result Cause Packet → Result SettingsError RuntimeSettings
settings_reply (err e) = err (settings_failed (request_failed e))
settings_reply (ok resp) = elim (check_result resp) [
  | some e ↦ err (settings_error e)
  | none ↦ ok (parse_runtime_settings resp.tlvs)
]

-- The mask of what is asked for: 0x0100, 0x0200, 0x0010, 0x2000, 0x0400, 0x0800, 0x1000 and 0x10000.
abbrev pub runtime_mask : ℕ
runtime_mask = 81680

unfoldable pub get_runtime_settings :
    {S : Type 0} → Sender S → ℕ → S → ℕ → Result SettingsError RuntimeSettings × S
get_runtime_settings send client_id s ip_family =
    let (preference, t) = set_ip_family_preference send client_id s ip_family in
    elim preference [
      | err e ↦ (err (settings_failed e), t)
      | ok done ↦
          let answer =
            send t (wds_request client_id 0x002d (new_tlv_uint32 0x10 runtime_mask ∷ [])) in
          (settings_reply answer.0, answer.1)
    ]

unfoldable pub register_wds_event_report :
    {S : Type 0} → Sender S → ℕ → S → Result ServiceError (Unit {0}) × S
register_wds_event_report send client_id s =
    wds_call send client_id 0x0001 (checked accept) s
      (new_tlv_uint8 0x10 0x01 ∷ new_tlv_uint8 0x12 0x01 ∷ new_tlv_uint8 0x13 0x01 ∷ [])

unfoldable pub bind_mux_data_port :
    {S : Type 0} → Sender S → ℕ → S → MuxBinding → Result ServiceError (Unit {0}) × S
bind_mux_data_port send client_id s binding =
    wds_call send client_id 0x00a2 (checked accept) s (bind_mux_tlvs binding)

unfoldable pub get_profile_list :
    {S : Type 0} → Sender S → ℕ → S → ℕ → Result ServiceError (List ProfileInfo) × S
get_profile_list send client_id s profile_type =
    wds_call send client_id 0x002a (checked (λ resp. ok (parse_profile_list resp.tlvs))) s
      (new_tlv_uint8 0x10 profile_type ∷ [])

unfoldable pub get_profile_settings :
    {S : Type 0} → Sender S → ℕ → S → ℕ → ℕ → Result ServiceError ProfileSettings × S
get_profile_settings send client_id s profile_type profile_index =
    let form : ℕ → List Tlv =
      λ tag. record { tag = tag; value = profile_type ∷ profile_index ∷ [] } ∷ [] in
    try_in_turn
      (wds_call send client_id 0x002b (checked (λ resp. ok (parse_profile_settings resp.tlvs)))) s
      (form 0x01) (form 0x10 ∷ [])

unfoldable pub create_profile :
    {S : Type 0} → Sender S → ℕ → S → ℕ → WdsProfileSettings → Result ServiceError ProfileInfo × S
create_profile send client_id s profile_type settings =
    wds_call send client_id 0x0027 (parse_create_profile_response settings.name) s
      (new_tlv_uint8 0x01 profile_type ∷ build_profile_settings_tlvs settings)

-- The error where no field is set is the last one here.
unfoldable pub modify_profile_settings :
    {S : Type 0}
    → Sender S
    → ℕ
    → S
    → ℕ
    → ℕ
    → WdsProfileSettings
    → Result (Option ServiceError) (Unit {0}) × S
modify_profile_settings send client_id s profile_type profile_index settings =
    let fields = build_profile_settings_tlvs settings in
    let answer =
      wds_call send client_id 0x0028 (checked accept) s
        (build_profile_identifier_tlv profile_type profile_index ∷ fields) in
    if length fields == 0
    then (err none, s)
    else (elim answer.0 [ ok done ↦ ok tt | err e ↦ err (some e) ], answer.1)

unfoldable pub delete_profile :
    {S : Type 0} → Sender S → ℕ → S → ℕ → ℕ → Result ServiceError (Unit {0}) × S
delete_profile send client_id s profile_type profile_index =
    wds_call send client_id 0x0029 (checked accept) s
      (build_profile_identifier_tlv profile_type profile_index ∷ [])
