-- ===== src/Tests/Manager.antt =====
-- Dialling, timeouts and received messages: pkg/manager/dual_stack_dial.go, service_recovery.go,
-- sms_trim.go, manager.go and smsc.go.
use qmi_go.Base.{
  ◌++◌, ℕ, ◌<◌, ◌≤◌, ◌≡◌, refl, arith, Bool, true, false, Option, none, some, ◌⊎◌, List, [], ◌∷◌,
}
use qmi_go.Manager.Smsc.{parse_smsc_from_smsp_record, parse_smsc_from_ts_service_centre_address}
use qmi_go.Manager.Smsc.Records.{number_text, written, parse_smsc-written}
use qmi_go.Manager.SmsPdu.{decode_incoming_sms_pdu, looks_like_deliver_tpdu}
use qmi_go.Manager.SmsPdu.Wrapped.{rp_data}
use qmi_go.Manager.SmsPdu.Candidates.{full_pdu}
use qmi_go.Manager.SmsPdu.Decoding.{is_decoded, decode_incoming_sms_pdu-wrapped}
use qmi_go.Manager.SmsTrim.{
  trim_deliver_tpdu, trim_to, deliver_tpdu_declared_length, declared_at, user_octets, mask_last,
  padding_bits,
}
use qmi_go.Manager.SmsTrim.Trimmed.{IsTrimmed}
use qmi_go.Manager.SmsTrim.Declared.{Deliver, trim_deliver_tpdu-IsTrimmed}

-- A message of thirteen octets and one of user data, with two octets too many.
abbrev sms_deliver : List ℕ
sms_deliver = 4 ∷ 0 ∷ 145 ∷ 0 ∷ 0 ∷ 1 ∷ 2 ∷ 3 ∷ 4 ∷ 5 ∷ 6 ∷ 7 ∷ 1 ∷ 255 ∷ 8 ∷ 9 ∷ []

abbrev seven_bit : ℕ → Option Bool
seven_bit dcs = some true

sms_trimmed :
    trim_deliver_tpdu seven_bit sms_deliver
    ≡ (4 ∷ 0 ∷ 145 ∷ 0 ∷ 0 ∷ 1 ∷ 2 ∷ 3 ∷ 4 ∷ 5 ∷ 6 ∷ 7 ∷ 1 ∷ 127 ∷ [], true)
unfolding trim_deliver_tpdu trim_to deliver_tpdu_declared_length declared_at user_octets mask_last
    padding_bits
sms_trimmed = refl

abbrev one_septet : Deliver
one_septet = record {
  header = 4;
  digits = 0;
  kind = 145;
  address = [];
  protocol = 0;
  coding = 0;
  stamp = 1 ∷ 2 ∷ 3 ∷ 4 ∷ 5 ∷ 6 ∷ 7 ∷ [];
  text_length = 1;
  text = 255 ∷ 8 ∷ 9 ∷ [];
}

trim_deliver_tpdu-IsTrimmed_example :
    let r = trim_deliver_tpdu seven_bit sms_deliver in
    ((3 < 1) × (r ≡ (sms_deliver, false)))
    ⊎ ((1 ≤ 3) × (r.1 ≡ true) × IsTrimmed sms_deliver 14 true 1 r.0)
trim_deliver_tpdu-IsTrimmed_example =
    trim_deliver_tpdu-IsTrimmed seven_bit one_septet true
      (record { direction = refl; whole_address = refl; whole_stamp = refl }) refl

-- A decoder that takes whatever is long enough.
abbrev decoder : List ℕ → Option ℕ
decoder [] = none
decoder (x ∷ []) = none
decoder (x ∷ y ∷ rest) = some y

decode_incoming_sms_pdu-wrapped_example :
    (is_decoded (decode_incoming_sms_pdu decoder (4 ∷ 9 ∷ [])) ≡ true)
    × (is_decoded (decode_incoming_sms_pdu decoder (full_pdu 0x91 (0x68 ∷ []) (4 ∷ 9 ∷ []))) ≡ true)
    × (is_decoded
          (decode_incoming_sms_pdu decoder (rp_data 7 (0x91 ∷ 0x68 ∷ []) [] (4 ∷ 9 ∷ []) (0 ∷ [])))
        ≡ true)
unfolding looks_like_deliver_tpdu
decode_incoming_sms_pdu-wrapped_example =
    decode_incoming_sms_pdu-wrapped decoder (4 ∷ 9 ∷ []) 0x91 7 (0x68 ∷ []) (0x91 ∷ 0x68 ∷ []) []
      (0 ∷ []) refl refl refl (omega arith)

abbrev record_head : List ℕ
record_head =
    0xff ∷ 0xff ∷ 0xff ∷ 0xff ∷ 0xff ∷ 0xff ∷ 0xff ∷ 0xff ∷ 0xff ∷ 0xff ∷ 0xff ∷ 0xff ∷ 0xff ∷ []

parse_smsc-written_example :
    (parse_smsc_from_ts_service_centre_address
        (written 0x91 (8 ∷ 6 ∷ 1 ∷ 3 ∷ 8 ∷ []) ++ (0xff ∷ []))
      ≡ number_text 0x91 (8 ∷ 6 ∷ 1 ∷ 3 ∷ 8 ∷ []))
    × (parse_smsc_from_smsp_record
          (record_head ++ (written 0x91 (8 ∷ 6 ∷ 1 ∷ 3 ∷ 8 ∷ []) ++ (0xff ∷ [])))
        ≡ number_text 0x91 (8 ∷ 6 ∷ 1 ∷ 3 ∷ 8 ∷ []))
parse_smsc-written_example =
    parse_smsc-written 0x91 (8 ∷ 6 ∷ 1 ∷ 3 ∷ 8 ∷ []) record_head (0xff ∷ [])
      (record { high = refl; some_bit = refl; unfilled = refl }) (omega arith) (omega arith)
      (omega arith, (omega arith, (omega arith, (omega arith, (omega arith, tt))))) refl
