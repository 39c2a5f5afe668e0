-- ===== src/Qmi/Wms/Forms.antt =====
-- The methods of the messaging service that know several forms of their request.
use qmi_go.Base.{ℕ, [], ◌∷◌, false}
use qmi_go.Qmi.Request.{Sender, checked, accept, new_tlv_uint8, new_tlv_uint32}
use qmi_go.Qmi.Request.InTurn.{IsInTurn, try_in_turn-IsInTurn}
use qmi_go.Qmi.Wms.{
  list_messages, delete_request, modify_tag, mt_not_read, list_form, list_forms, delete_form,
  combined_form, modify_forms, entry,
}
use qmi_go.Qmi.Wms.Responses.{parse_list_messages_response}
use qmi_go.Qmi.Wms.Calls.{
  WmsService, call, list_messages_auto, delete_message_by_index, delete_messages_by_tag,
  modify_message_tag,
}

-- Whatever the modem answers, a list without a tag, a deletion by index or by tag and a change of
-- a tag end with the outcome of one form of the request: those in front of it have failed one
-- after the other, those behind it are not sent, and an error is that of the last form.
pub forms-IsInTurn :
    {S : Type 0} (send : Sender S) (w : WmsService) (s : S) (storage index tag mode : ℕ)
    → IsInTurn
        (call send w list_messages parse_list_messages_response)
        s
        (list_form storage 0x11 mt_not_read false ∷ list_forms storage)
        (list_messages_auto send w s storage)
      × IsInTurn
          (call send w delete_request (checked accept))
          s
          (delete_form storage (new_tlv_uint32 0x10 index) 0x12 mode
            ∷ delete_form storage (new_tlv_uint32 0x02 index) 0x04 mode
            ∷ [])
          (delete_message_by_index send w s storage index mode)
      × IsInTurn
          (call send w delete_request (checked accept))
          s
          (delete_form storage (new_tlv_uint8 0x11 tag) 0x12 mode
            ∷ delete_form storage (new_tlv_uint8 0x03 tag) 0x04 mode
            ∷ [])
          (delete_messages_by_tag send w s storage tag mode)
      × IsInTurn
          (call send w modify_tag (checked accept))
          s
          (combined_form storage index tag (entry 0x10 (0x01 ∷ []) ∷ [])
            ∷ modify_forms storage index tag)
          (modify_message_tag send w s storage index tag)
unfolding list_messages_auto delete_message_by_index delete_messages_by_tag modify_message_tag
forms-IsInTurn send w s storage index tag mode =
    let accepted = call send w delete_request (checked accept) in
    (
      try_in_turn-IsInTurn (call send w list_messages parse_list_messages_response) s
          (list_form storage 0x11 mt_not_read false) (list_forms storage),
      try_in_turn-IsInTurn accepted s (delete_form storage (new_tlv_uint32 0x10 index) 0x12 mode)
          (delete_form storage (new_tlv_uint32 0x02 index) 0x04 mode ∷ []),
      try_in_turn-IsInTurn accepted s (delete_form storage (new_tlv_uint8 0x11 tag) 0x12 mode)
          (delete_form storage (new_tlv_uint8 0x03 tag) 0x04 mode ∷ []),
      try_in_turn-IsInTurn (call send w modify_tag (checked accept)) s
          (combined_form storage index tag (entry 0x10 (0x01 ∷ []) ∷ []))
          (modify_forms storage index tag),
    )
