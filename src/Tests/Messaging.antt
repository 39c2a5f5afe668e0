-- ===== src/Tests/Messaging.antt =====
-- The messaging service of pkg/qmi/wms.go.
use qmi_go.Base.{ℕ, ◌≡◌, refl, arith, List, [], ◌∷◌, ◌++◌, true, false, Result, ok, err}
use qmi_go.Qmi.Tlv.{Tlv, find_tlv}
use qmi_go.Qmi.Packet.{Packet, check_result, get_result_code}
use qmi_go.Qmi.Client.{Cause, deadline_exceeded}
use qmi_go.Qmi.Request.{
  Sender, checked, accept, exchange, read_reply, try_in_turn, new_tlv_uint8, new_tlv_uint32,
}
use qmi_go.Qmi.Request.InTurn.{IsInTurn}
use qmi_go.Qmi.Wms.{
  Route, build_set_routes_tlvs, entry, list_messages, delete_request, modify_tag, mt_not_read,
  list_form, list_forms, delete_form, combined_form, modify_forms, is_known_message_tag_type,
}
use qmi_go.Qmi.Wms.Responses.{parse_raw_read_message_value, parse_list_messages_response}
use qmi_go.Qmi.Wms.Calls.{
  WmsService, call, list_messages_auto, delete_message_by_index, delete_messages_by_tag,
  modify_message_tag,
}
use qmi_go.Qmi.Wms.RawRead.{untagged_value, parse_raw_read-both_forms}
use qmi_go.Qmi.Wms.Forms.{forms-IsInTurn}

abbrev deliver : List ℕ
deliver = 0x04 ∷ 0x0b ∷ 0x91 ∷ []

tags_known : is_known_message_tag_type 1 ≡ true
unfolding is_known_message_tag_type
tags_known = refl

parse_raw_read-both_forms_example :
    (parse_raw_read_message_value (untagged_value 0x06 deliver ++ (0xff ∷ []))
      ≡ ok (record { tag = 0; has_tag = false; content = deliver }))
    × (parse_raw_read_message_value (1 ∷ untagged_value 0x06 deliver)
        ≡ ok (record { tag = 1; has_tag = true; content = deliver }))
parse_raw_read-both_forms_example =
    parse_raw_read-both_forms 1 0x06 deliver (0xff ∷ []) tags_known (omega arith) (omega arith)

abbrev two_routes : List Route
two_routes =
    record { message_type = 0; message_class = 1; storage_type = 0; receipt_action = 1 }
    ∷ record { message_type = 0; message_class = 0; storage_type = 1; receipt_action = 2 }
    ∷ []

abbrev success_entry : Tlv
success_entry = entry 0x02 (0 ∷ 0 ∷ 0 ∷ 0 ∷ [])

abbrev routes_response : Packet
routes_response = record {
  service_type = 5;
  client_id = 1;
  transaction_id = 4;
  message_id = 0x33;
  is_indication = false;
  tlvs = build_set_routes_tlvs two_routes true ++ (success_entry ∷ []);
}

-- A modem that answers from a list, and not at all when it is empty.
abbrev scripted : Sender (List (Result Cause Packet))
scripted [] request = (err deadline_exceeded, [])
scripted (r ∷ rest) request = (r, rest)

abbrev service : WmsService
service = record { client_id = 1 }

abbrev answers : List (Result Cause Packet)
answers = err deadline_exceeded ∷ ok routes_response ∷ []

forms-IsInTurn_example :
    IsInTurn
      (call scripted service list_messages parse_list_messages_response)
      answers
      (list_form 0 0x11 mt_not_read false ∷ list_forms 0)
      (list_messages_auto scripted service answers 0)
    × IsInTurn
        (call scripted service delete_request (checked accept))
        answers
        (delete_form 0 (new_tlv_uint32 0x10 3) 0x12 1
          ∷ delete_form 0 (new_tlv_uint32 0x02 3) 0x04 1
          ∷ [])
        (delete_message_by_index scripted service answers 0 3 1)
    × IsInTurn
        (call scripted service delete_request (checked accept))
        answers
        (delete_form 0 (new_tlv_uint8 0x11 1) 0x12 1
          ∷ delete_form 0 (new_tlv_uint8 0x03 1) 0x04 1
          ∷ [])
        (delete_messages_by_tag scripted service answers 0 1 1)
    × IsInTurn
        (call scripted service modify_tag (checked accept))
        answers
        (combined_form 0 3 1 (entry 0x10 (0x01 ∷ []) ∷ []) ∷ modify_forms 0 3 1)
        (modify_message_tag scripted service answers 0 3 1)
forms-IsInTurn_example = forms-IsInTurn scripted service answers 0 3 1 1

-- The second form of a deletion is sent when the first is not answered, and then the script is at its end.
delete_second_form : delete_message_by_index scripted service answers 0 3 1 ≡ (ok tt, [])
unfolding delete_message_by_index try_in_turn call exchange read_reply checked check_result
    get_result_code find_tlv build_set_routes_tlvs new_tlv_uint8
delete_second_form = refl
