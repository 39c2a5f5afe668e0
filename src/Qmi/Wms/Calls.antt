-- ===== src/Qmi/Wms/Calls.antt =====
-- pkg/qmi/wms.go: the methods of WMSService, each with the requests it sends and what it returns.
-- How a request is answered, and what state it leaves, is the parameter.
use qmi_go.Base.{ℕ, List, [], ◌∷◌, Bool, false, Option, none, some, Result, ok, err}
use qmi_go.Qmi.Tlv.{Tlv}
use qmi_go.Qmi.Packet.{Packet}
use qmi_go.Qmi.Ctl.{VersionMap}
use qmi_go.Qmi.Client.{Cause, Client}
use qmi_go.Qmi.Client.ClientIds.{Attempt, AllocateError, allocate_client_id, release_client_id}
use qmi_go.Qmi.Request.{
  Sender, ServiceError, request_failed, exchange, checked, accept, try_in_turn, new_tlv_uint8,
  new_tlv_uint32, bool_to_uint8,
}
use qmi_go.Qmi.Wms.{
  service_wms, set_event_report, get_supported_messages, raw_send, raw_write, raw_read, modify_tag,
  delete_request, get_message_protocol, list_messages, set_routes, get_routes, get_smsc_address,
  send_ack, send_from_storage, indication_register, get_transport_status, mt_not_read, mode_gw,
  RawReadMessageValue, Route, RouteConfig, AckRequest, AckResult, SendFromStorageResult, entry,
  build_raw_write_message_tlvs, raw_send_tlvs, build_set_routes_tlvs, build_send_ack_tlvs,
  build_send_from_storage_tlvs, list_messages_tlvs, list_form, list_forms, raw_read_tlvs,
  delete_form, combined_form, modify_forms,
}
use qmi_go.Qmi.Wms.Responses.{
  parse_raw_read_response, parse_raw_read_data, parse_list_messages_response,
  parse_get_smsc_address_response, parse_raw_write_message_response,
  parse_get_message_protocol_response, parse_transport_status_response,
  parse_wms_supported_messages_response,
}
use qmi_go.Qmi.Wms.Reports.{
  parse_get_routes_response, Reported, parse_send_ack_response, parse_send_from_storage_response,
  check_raw_send,
}

-- `NewWMSService` keeps the client number.
pub record WmsService : Type 0 where
  pub client_id : ℕ

abbrev with_number : Client × Result AllocateError ℕ → Client × Result AllocateError WmsService
with_number (c, ok client_id) = (c, ok (record { client_id = client_id }))
with_number (c, err e) = (c, err e)

unfoldable pub new_wms_service :
    Client → Option VersionMap → (ℕ → Attempt) → Client × Result AllocateError WmsService
new_wms_service c versions attempts =
    with_number (allocate_client_id c versions service_wms attempts)

-- `Close`, with the outcome of its request; true is a nil error.
unfoldable pub close_wms_service : Client → WmsService → Attempt → Client × Bool
close_wms_service c w answer = release_client_id c service_wms answer

-- One request of the service, and the rest of its method.
unfoldable pub call :
    {S A : Type 0}
    → Sender S
    → WmsService
    → ℕ
    → (Packet → Result ServiceError A)
    → S
    → List Tlv
    → Result ServiceError A × S
call send w message_id parse s tlvs = exchange send parse s (record {
  service = service_wms;
  client_id = w.client_id;
  message_id = message_id;
  tlvs = tlvs;
})

unfoldable pub get_supported_messages_call :
    {S : Type 0} → Sender S → WmsService → S → Result ServiceError (List ℕ) × S
get_supported_messages_call send w s =
    call send w get_supported_messages parse_wms_supported_messages_response s []

unfoldable pub list_messages_call :
    {S : Type 0} → Sender S → WmsService → S → ℕ → ℕ → Result ServiceError (List (ℕ × ℕ)) × S
list_messages_call send w s storage tag =
    call send w list_messages parse_list_messages_response s (list_messages_tlvs storage tag)

unfoldable pub list_messages_auto :
    {S : Type 0} → Sender S → WmsService → S → ℕ → Result ServiceError (List (ℕ × ℕ)) × S
list_messages_auto send w s storage =
    try_in_turn (call send w list_messages parse_list_messages_response) s
      (list_form storage 0x11 mt_not_read false) (list_forms storage)

unfoldable pub raw_read_message :
    {S : Type 0} → Sender S → WmsService → S → ℕ → ℕ → Result ServiceError (List ℕ) × S
raw_read_message send w s storage index =
    call send w raw_read parse_raw_read_data s (raw_read_tlvs storage index)

unfoldable pub raw_read_message_meta :
    {S : Type 0} → Sender S → WmsService → S → ℕ → ℕ → Result ServiceError RawReadMessageValue × S
raw_read_message_meta send w s storage index =
    call send w raw_read parse_raw_read_response s (raw_read_tlvs storage index)

unfoldable pub delete_message_by_index :
    {S : Type 0} → Sender S → WmsService → S → ℕ → ℕ → ℕ → Result ServiceError (Unit {0}) × S
delete_message_by_index send w s storage index mode =
    try_in_turn (call send w delete_request (checked accept)) s
      (delete_form storage (new_tlv_uint32 0x10 index) 0x12 mode)
      (delete_form storage (new_tlv_uint32 0x02 index) 0x04 mode ∷ [])

unfoldable pub delete_message :
    {S : Type 0} → Sender S → WmsService → S → ℕ → ℕ → Result ServiceError (Unit {0}) × S
delete_message send w s storage index = delete_message_by_index send w s storage index mode_gw

unfoldable pub delete_messages_by_tag :
    {S : Type 0} → Sender S → WmsService → S → ℕ → ℕ → ℕ → Result ServiceError (Unit {0}) × S
delete_messages_by_tag send w s storage tag mode =
    try_in_turn (call send w delete_request (checked accept)) s
      (delete_form storage (new_tlv_uint8 0x11 tag) 0x12 mode)
      (delete_form storage (new_tlv_uint8 0x03 tag) 0x04 mode ∷ [])

unfoldable pub modify_message_tag :
    {S : Type 0} → Sender S → WmsService → S → ℕ → ℕ → ℕ → Result ServiceError (Unit {0}) × S
modify_message_tag send w s storage index new_tag =
    try_in_turn (call send w modify_tag (checked accept)) s
      (combined_form storage index new_tag (entry 0x10 (0x01 ∷ []) ∷ []))
      (modify_forms storage index new_tag)

unfoldable pub get_smsc_address_call :
    {S : Type 0} → Sender S → WmsService → S → Result ServiceError (List ℕ) × S
get_smsc_address_call send w s = call send w get_smsc_address parse_get_smsc_address_response s []

unfoldable pub register_event_report :
    {S : Type 0} → Sender S → WmsService → S → Result ServiceError (Unit {0}) × S
register_event_report send w s =
    call send w set_event_report (checked accept) s (new_tlv_uint8 0x10 0x01 ∷ [])

unfoldable pub raw_write_message :
    {S : Type 0} → Sender S → WmsService → S → ℕ → ℕ → List ℕ → Result ServiceError ℕ × S
raw_write_message send w s storage format pdu =
    call send w raw_write parse_raw_write_message_response s
      (build_raw_write_message_tlvs storage format pdu)

unfoldable pub get_message_protocol_call :
    {S : Type 0} → Sender S → WmsService → S → Result ServiceError ℕ × S
get_message_protocol_call send w s =
    call send w get_message_protocol parse_get_message_protocol_response s []

unfoldable pub set_routes_call :
    {S : Type 0}
    → Sender S
    → WmsService
    → S
    → List Route
    → Bool
    → Result ServiceError (Unit {0}) × S
set_routes_call send w s routes to_client =
    call send w set_routes (checked accept) s (build_set_routes_tlvs routes to_client)

unfoldable pub get_routes_call :
    {S : Type 0} → Sender S → WmsService → S → Result ServiceError RouteConfig × S
get_routes_call send w s = call send w get_routes parse_get_routes_response s []

unfoldable pub indication_register_call :
    {S : Type 0} → Sender S → WmsService → S → Bool → Result ServiceError (Unit {0}) × S
indication_register_call send w s on =
    call send w indication_register (checked accept) s (new_tlv_uint8 0x11 (bool_to_uint8 on) ∷ [])

unfoldable pub get_transport_status_call :
    {S : Type 0} → Sender S → WmsService → S → Result ServiceError ℕ × S
get_transport_status_call send w s =
    call send w get_transport_status parse_transport_status_response s []

unfoldable pub send_raw_message :
    {S : Type 0} → Sender S → WmsService → S → ℕ → List ℕ → Result ServiceError (Unit {0}) × S
send_raw_message send w s format pdu =
    call send w raw_send check_raw_send s (raw_send_tlvs format pdu)

-- The two methods that can return a result beside an error.
abbrev pub reported_reply : {A : Type 0} → (Packet → Reported A) → Result Cause Packet → Reported A
reported_reply parse (ok resp) = parse resp
reported_reply parse (err e) = (none, some (request_failed e))

unfoldable pub reported_call :
    {S A : Type 0}
    → Sender S
    → WmsService
    → ℕ
    → (Packet → Reported A)
    → S
    → List Tlv
    → Reported A × S
reported_call send w message_id parse s tlvs =
    let r = send s (record {
      service = service_wms;
      client_id = w.client_id;
      message_id = message_id;
      tlvs = tlvs;
    }) in
    (reported_reply parse r.0, r.1)

unfoldable pub send_ack_call :
    {S : Type 0} → Sender S → WmsService → S → AckRequest → Reported AckResult × S
send_ack_call send w s req =
    reported_call send w send_ack parse_send_ack_response s (build_send_ack_tlvs req)

unfoldable pub send_from_storage_call :
    {S : Type 0} → Sender S → WmsService → S → ℕ → ℕ → ℕ → Bool → Reported SendFromStorageResult × S
send_from_storage_call send w s storage index mode ims =
    reported_call send w send_from_storage parse_send_from_storage_response s
      (build_send_from_storage_tlvs storage index mode ims)
