-- ===== src/Qmi/Wms.antt =====
-- pkg/qmi/wms.go: the messaging service, its types and the entries of its requests.
pub mod Responses
pub mod Reports
pub mod Calls
pub mod RawRead
pub mod Listing
pub mod Routes
pub mod Forms
use Prim.Native.String.{String}
use qmi_go.Base.{ℕ, List, [], ◌∷◌, ◌++◌, Bool, ◌&&◌, not, true, false, length, Option, none, some}
use qmi_go.Base.{if◌then◌else◌, ◌||◌, ◌==◌}
use qmi_go.Base.Words.{low_byte, high_byte, put_u32}
use qmi_go.Qmi.Tlv.{Tlv}
use qmi_go.Qmi.Request.{bool_to_uint8, new_tlv_uint8, new_tlv_uint32}

abbrev pub service_wms : ℕ
service_wms = 0x05

abbrev pub set_event_report : ℕ
set_event_report = 0x0001

abbrev pub get_supported_messages : ℕ
get_supported_messages = 0x001e

abbrev pub raw_send : ℕ
raw_send = 0x0020

abbrev pub raw_write : ℕ
raw_write = 0x0021

abbrev pub raw_read : ℕ
raw_read = 0x0022

abbrev pub modify_tag : ℕ
modify_tag = 0x0023

abbrev pub delete_request : ℕ
delete_request = 0x0024

abbrev pub get_message_protocol : ℕ
get_message_protocol = 0x0030

abbrev pub list_messages : ℕ
list_messages = 0x0031

abbrev pub set_routes : ℕ
set_routes = 0x0032

abbrev pub get_routes : ℕ
get_routes = 0x0033

abbrev pub get_smsc_address : ℕ
get_smsc_address = 0x0034

abbrev pub send_ack : ℕ
send_ack = 0x0037

abbrev pub send_from_storage : ℕ
send_from_storage = 0x0042

abbrev pub indication_register : ℕ
indication_register = 0x0047

abbrev pub get_transport_status : ℕ
get_transport_status = 0x004a

-- MessageTagType and MessageMode.
abbrev pub mt_read : ℕ
mt_read = 0x00

abbrev pub mt_not_read : ℕ
mt_not_read = 0x01

abbrev pub mo_sent : ℕ
mo_sent = 0x02

abbrev pub mo_not_sent : ℕ
mo_not_sent = 0x03

abbrev pub mode_gw : ℕ
mode_gw = 0x01

unfoldable pub is_known_message_tag_type : ℕ → Bool
is_known_message_tag_type v = v == mt_read || v == mt_not_read || v == mo_sent || v == mo_not_sent

-- WMSTransportNetworkRegistration.String.
unfoldable pub transport_status_text : ℕ → String
transport_status_text s =
    if s == 0x00
    then "no-service"
    else if s == 0x01
    then "in-process"
    else if s == 0x02
    then "failure"
    else if s == 0x03
    then "limited-service"
    else if s == 0x04
    then "full-service"
    else "unknown"

pub record RawReadMessageValue : Type 0 where
  pub tag : ℕ
  pub has_tag : Bool
  pub content : List ℕ

pub record Route : Type 0 where
  pub message_type : ℕ
  pub message_class : ℕ
  pub storage_type : ℕ
  pub receipt_action : ℕ

pub record RouteConfig : Type 0 where
  pub routes : List Route
  pub transfer_status_report_to_client : Bool
  pub has_transfer_status_report : Bool

-- The two failures are their pairs of bytes.
pub record AckRequest : Type 0 where
  pub transaction_id : ℕ
  pub protocol : ℕ
  pub success : Bool
  pub failure_3gpp2 : Option (ℕ × ℕ)
  pub failure_3gpp : Option (ℕ × ℕ)
  pub sms_on_ims : Option Bool

pub record AckResult : Type 0 where
  pub failure_cause : ℕ
  pub has_failure_cause : Bool

pub record SendFromStorageResult : Type 0 where
  pub message_id : ℕ
  pub has_message_id : Bool
  pub cdma_cause_code : ℕ
  pub has_cdma_cause_code : Bool
  pub cdma_error_class : ℕ
  pub has_cdma_error_class : Bool
  pub gsm_wcdma_rp_cause : ℕ
  pub has_gsm_wcdma_rp_cause : Bool
  pub gsm_wcdma_tp_cause : ℕ
  pub has_gsm_wcdma_tp_cause : Bool
  pub delivery_failure_type : ℕ
  pub has_delivery_failure_type : Bool

-- `{Type: tag, Value: value}`
abbrev pub entry : ℕ → List ℕ → Tlv
entry tag value = record { tag = tag; value = value }

unfoldable pub build_raw_write_message_tlvs : ℕ → ℕ → List ℕ → List Tlv
build_raw_write_message_tlvs storage format pdu =
    entry 0x01 (storage ∷ format ∷ low_byte (length pdu) ∷ high_byte (length pdu) ∷ pdu) ∷ []

-- The request of `SendRawMessage`.
unfoldable pub raw_send_tlvs : ℕ → List ℕ → List Tlv
raw_send_tlvs format pdu =
    entry 0x01 (format ∷ low_byte (length pdu) ∷ high_byte (length pdu) ∷ pdu) ∷ []

unfoldable pub route_bytes : List Route → List ℕ
route_bytes [] = []
route_bytes (r ∷ rest) =
    r.message_type ∷ r.message_class ∷ r.storage_type ∷ r.receipt_action ∷ route_bytes rest

unfoldable pub build_set_routes_tlvs : List Route → Bool → List Tlv
unfolding route_bytes
build_set_routes_tlvs routes to_client =
    entry 0x01 (low_byte (length routes) ∷ high_byte (length routes) ∷ route_bytes routes)
    ∷ new_tlv_uint8 0x10 (bool_to_uint8 to_client)
    ∷ []

-- The entry of a failure, which a success leaves out.
abbrev pub failure_entry : ℕ → Bool → Option (ℕ × ℕ) → List Tlv
failure_entry tag success none = []
failure_entry tag success (some (a, b)) = if success then [] else entry tag (a ∷ b ∷ []) ∷ []

abbrev pub ims_entry : Option Bool → List Tlv
ims_entry none = []
ims_entry (some ims) = new_tlv_uint8 0x12 (bool_to_uint8 ims) ∷ []

unfoldable pub build_send_ack_tlvs : AckRequest → List Tlv
build_send_ack_tlvs req =
    entry 0x01 (put_u32 req.transaction_id (req.protocol ∷ bool_to_uint8 req.success ∷ []))
    ∷ (failure_entry 0x10 req.success req.failure_3gpp2
        ++ (failure_entry 0x11 req.success req.failure_3gpp ++ ims_entry req.sms_on_ims))

unfoldable pub build_send_from_storage_tlvs : ℕ → ℕ → ℕ → Bool → List Tlv
build_send_from_storage_tlvs storage index mode ims =
    entry 0x01 (storage ∷ put_u32 index (mode ∷ [])) ∷ new_tlv_uint8 0x10 (bool_to_uint8 ims) ∷ []

-- What `ListMessages` sends, and the forms that `ListMessagesAuto` tries after its first.
unfoldable pub list_messages_tlvs : ℕ → ℕ → List Tlv
list_messages_tlvs storage tag = entry 0x01 (storage ∷ []) ∷ entry 0x11 (tag ∷ []) ∷ []

unfoldable pub list_form : ℕ → ℕ → ℕ → Bool → List Tlv
list_form storage entry_type tag with_mode =
    entry 0x01 (storage ∷ [])
    ∷ entry entry_type (tag ∷ [])
    ∷ (if with_mode then entry 0x10 (mode_gw ∷ []) ∷ [] else [])

unfoldable pub list_forms : ℕ → List (List Tlv)
list_forms storage =
    list_form storage 0x11 mt_not_read true
    ∷ list_form storage 0x02 mt_not_read false
    ∷ list_form storage 0x02 mt_not_read true
    ∷ list_form storage 0x11 mt_read false
    ∷ list_form storage 0x11 mt_read true
    ∷ []

-- The request of `RawReadMessage` and `RawReadMessageMeta`.
unfoldable pub raw_read_tlvs : ℕ → ℕ → List Tlv
raw_read_tlvs storage index = entry 0x01 (storage ∷ put_u32 index []) ∷ entry 0x10 (0x01 ∷ []) ∷ []

-- The two forms of a deletion, with the entry types of each: by index, and by tag.
unfoldable pub delete_form : ℕ → Tlv → ℕ → ℕ → List Tlv
delete_form storage which mode_type mode =
    new_tlv_uint8 0x01 storage ∷ which ∷ new_tlv_uint8 mode_type mode ∷ []

-- The five forms of `ModifyMessageTag`, the first of them alone.
unfoldable pub combined_form : ℕ → ℕ → ℕ → List Tlv → List Tlv
combined_form storage index new_tag mode =
    entry 0x01 (storage ∷ put_u32 index (new_tag ∷ [])) ∷ mode

unfoldable pub modify_forms : ℕ → ℕ → ℕ → List (List Tlv)
modify_forms storage index new_tag =
    let mode = entry 0x10 (0x01 ∷ []) in
    let info = entry 0x03 (storage ∷ put_u32 index []) in
    combined_form storage index new_tag []
    ∷ (new_tlv_uint8 0x01 new_tag ∷ info ∷ mode ∷ [])
    ∷ (new_tlv_uint8 0x01 new_tag ∷ info ∷ [])
    ∷ (new_tlv_uint8 0x01 new_tag ∷ new_tlv_uint32 0x02 0 ∷ info ∷ mode ∷ [])
    ∷ []
