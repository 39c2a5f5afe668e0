-- ===== src/Qmi/Wms/Responses.antt =====
-- pkg/qmi/wms.go: what the methods of the messaging service take out of a response.
use qmi_go.Base.{ℕ, zero, suc, ◌+◌, ◌-◌, ◌*◌, List, [], ◌∷◌, Bool, true, false, ◌&&◌, ◌||◌, not}
use qmi_go.Base.{length, take, drop, ltb, leb, ◌==◌, if◌then◌else◌, Option, none, some}
use qmi_go.Base.{Result, ok, err, ◌>>=◌, ◌>>◌, guard}
use qmi_go.Base.Words.{byte_at, u16_at, u32_at}
use qmi_go.Qmi.Tlv.{Tlv, find_tlv}
use qmi_go.Qmi.Packet.{Packet}
use qmi_go.Qmi.Request.{
  ServiceError, missing_entry, short_entry, truncated_entry, empty_entry, checked, with_entry,
}
use qmi_go.Qmi.Wms.{RawReadMessageValue, Route, is_known_message_tag_type}

unfoldable pub parse_raw_read_message_value : List ℕ → Result ServiceError RawReadMessageValue
parse_raw_read_message_value val =
    let untagged = u16_at val 1 in
    let tagged = u16_at val 2 in
    if ltb (length val) 3
    then err short_entry
    else if leb untagged (length val - 3)
    then ok (record { tag = 0; has_tag = false; content = take untagged (drop 3 val) })
    else if leb 4 (length val)
        && (is_known_message_tag_type (byte_at val 0) && leb tagged (length val - 4))
    then ok (record { tag = byte_at val 0; has_tag = true; content = take tagged (drop 4 val) })
    else ok (record { tag = 0; has_tag = false; content = drop 3 val })

-- The rest of `RawReadMessageMeta`; `RawReadMessage` returns its data alone.
unfoldable pub parse_raw_read_response : Packet → Result ServiceError RawReadMessageValue
parse_raw_read_response = checked (with_entry 0x01 3 parse_raw_read_message_value)

unfoldable pub parse_raw_read_data : Packet → Result ServiceError (List ℕ)
parse_raw_read_data resp = do parsed ← parse_raw_read_response resp; ok parsed.content

-- The loop over the message list at an offset; the list is the value from there on.
unfoldable pub read_message_list : ℕ → List ℕ → List (ℕ × ℕ)
read_message_list zero bytes = []
read_message_list (suc count) bytes = elim (ltb (length bytes) 5) [
  | true ↦ []
  | false ↦ (u32_at bytes 0, byte_at bytes 4) ∷ read_message_list count (drop 5 bytes)
]

-- `if listTLV == nil || len(listTLV.Value) < 4 { return nil, nil }`, and then the loop.
unfoldable pub message_list : Option Tlv → List (ℕ × ℕ)
unfolding read_message_list
message_list none = []
message_list (some t) = elim (ltb (length t.value) 4) [
  | true ↦ []
  | false ↦ read_message_list (u32_at t.value 0) (drop 4 t.value)
]

unfoldable pub parse_list_messages_response : Packet → Result ServiceError (List (ℕ × ℕ))
parse_list_messages_response = checked (λ resp. ok (message_list (find_tlv resp.tlvs 0x01)))

-- strings.TrimSpace on bytes below 128.
unfoldable pub is_space : ℕ → Bool
is_space b = b == 0x20 || (leb 0x09 b && leb b 0x0d)

unfoldable pub trim_left : List ℕ → List ℕ
trim_left [] = []
trim_left (b ∷ rest) = let more = trim_left rest in if is_space b then more else b ∷ rest

unfoldable pub trim_right : List ℕ → List ℕ
trim_right [] = []
trim_right (b ∷ rest) = elim (trim_right rest) [
  | [] ↦ if is_space b then [] else b ∷ []
  | c ∷ more ↦ b ∷ c ∷ more
]

unfoldable pub trim_space : List ℕ → List ℕ
unfolding trim_left trim_right
trim_space bytes = trim_right (trim_left bytes)

-- `addressType == "145"` and `strings.HasPrefix(digits, "+")`
unfoldable pub is_international : List ℕ → Bool
is_international (a ∷ b ∷ c ∷ []) = a == 0x31 && (b == 0x34 && c == 0x35)
is_international other = false

unfoldable pub has_plus : List ℕ → Bool
has_plus [] = false
has_plus (b ∷ rest) = b == 0x2b

abbrev pub signed_digits : List ℕ → List ℕ → Result ServiceError (List ℕ)
signed_digits address_type [] = err empty_entry
signed_digits address_type (d ∷ rest) =
    if is_international address_type && not (has_plus (d ∷ rest))
    then ok (0x2b ∷ d ∷ rest)
    else ok (d ∷ rest)

unfoldable pub parse_wms_smsc_address_value : List ℕ → Result ServiceError (List ℕ)
parse_wms_smsc_address_value value = do
  guard (leb 4 (length value)) short_entry
  guard (leb (4 + byte_at value 3) (length value)) truncated_entry
  signed_digits (trim_space (take 3 value)) (trim_space (take (byte_at value 3) (drop 4 value)))

unfoldable pub parse_get_smsc_address_response : Packet → Result ServiceError (List ℕ)
parse_get_smsc_address_response = checked (with_entry 0x01 0 parse_wms_smsc_address_value)

unfoldable pub parse_raw_write_message_response : Packet → Result ServiceError ℕ
parse_raw_write_message_response = checked (with_entry 0x01 4 (λ value. ok (u32_at value 0)))

unfoldable pub parse_get_message_protocol_response : Packet → Result ServiceError ℕ
parse_get_message_protocol_response = checked (with_entry 0x01 1 (λ value. ok (byte_at value 0)))

unfoldable pub parse_transport_status_response : Packet → Result ServiceError ℕ
parse_transport_status_response = checked (with_entry 0x10 1 (λ value. ok (byte_at value 0)))

unfoldable pub parse_transport_status_indication : Packet → Result ServiceError ℕ
parse_transport_status_indication = with_entry 0x01 1 (λ value. ok (byte_at value 0))

-- A list entry shorter than its count counts as missing there.
abbrev pub supported_messages : Option Tlv → Result ServiceError (List ℕ)
supported_messages none = err missing_entry
supported_messages (some t) = do
  guard (leb 2 (length t.value)) missing_entry
  guard (leb (2 + u16_at t.value 0) (length t.value)) truncated_entry
  ok (take (u16_at t.value 0) (drop 2 t.value))

unfoldable pub parse_wms_supported_messages_response : Packet → Result ServiceError (List ℕ)
parse_wms_supported_messages_response =
    checked (λ resp. supported_messages (find_tlv resp.tlvs 0x10))

-- The loop over the routes; the list is the value from the offset on.
unfoldable pub read_routes : ℕ → List ℕ → List Route
read_routes zero bytes = []
read_routes (suc count) bytes =
    record {
      message_type = byte_at bytes 0;
      message_class = byte_at bytes 1;
      storage_type = byte_at bytes 2;
      receipt_action = byte_at bytes 3;
    }
    ∷ read_routes count (drop 4 bytes)

unfoldable pub parse_route_list : List ℕ → Result ServiceError (List Route)
unfolding read_routes
parse_route_list value = do
  guard (leb 2 (length value)) short_entry
  guard (leb (2 + u16_at value 0 * 4) (length value)) truncated_entry
  ok (read_routes (u16_at value 0) (drop 2 value))
