-- ===== src/Qmi/Wms/Reports.antt =====
-- pkg/qmi/wms.go: responses whose entries are each optional, read one after the other.
use Prim.Native.String.{String}
use qmi_go.Base.{ℕ, List, [], ◌∷◌, ◌++◌, Bool, true, false, not}
use qmi_go.Base.{length, ltb, ◌==◌, if◌then◌else◌, Option, none, some}
use qmi_go.Base.{Result, ok, err, ◌>>=◌}
use qmi_go.Base.Words.{byte_at, u16_at}
use qmi_go.Qmi.Tlv.{Tlv, find_tlv}
use qmi_go.Qmi.Packet.{Packet, check_result}
use qmi_go.Qmi.Request.{ServiceError, refused, refused_with, short_entry, checked}
use qmi_go.Qmi.Wms.{RouteConfig, AckResult, SendFromStorageResult}
use qmi_go.Qmi.Wms.Responses.{parse_route_list}

-- `if tlv := FindTLV(resp.TLVs, tag); tlv != nil { … }` on the result so far, with the test of the
-- length in front.
unfoldable pub read_optional {ℓ} :
    {A : Type ℓ} → ℕ → ℕ → (A → List ℕ → A) → List Tlv → A → Result ServiceError A
read_optional tag size set tlvs result = elim (find_tlv tlvs tag) [
  | none ↦ ok result
  | some t ↦ if ltb (length t.value) size then err short_entry else ok (set result t.value)
]

unfoldable pub with_routes : List Tlv → Result ServiceError RouteConfig
unfolding parse_route_list
with_routes tlvs =
    let empty : RouteConfig = record {
      routes = [];
      transfer_status_report_to_client = false;
      has_transfer_status_report = false;
    } in
    elim (find_tlv tlvs 0x01) [
      | none ↦ ok empty
      | some t ↦ parse_route_list t.value >>= λ routes. ok (record empty { routes = routes })
    ]

unfoldable pub parse_get_routes_response : Packet → Result ServiceError RouteConfig
parse_get_routes_response = checked (λ resp.
    with_routes resp.tlvs
    >>= read_optional 0x10 1
        (λ c value. record c {
          transfer_status_report_to_client = not (byte_at value 0 == 0);
          has_transfer_status_report = true;
        })
        resp.tlvs)

-- A result and an error, of which Go can return both.
abbrev pub Reported : Type 0 → Type 0
Reported A = Option A × Option ServiceError

-- `CheckResult` comes after the entries, and its error goes beside the result.
unfoldable pub report :
    {A : Type 0} → Packet → (A → List (String × ℕ)) → Result ServiceError A → Reported A
report resp parts (err e) = (none, some e)
report resp parts (ok result) = elim (check_result resp) [
  | none ↦ (some result, none)
  | some e ↦ elim (parts result) [
    | [] ↦ (some result, some (refused e))
    | first ∷ more ↦ (some result, some (refused_with e (first ∷ more)))
  ]
]

unfoldable pub ack_result : List Tlv → Result ServiceError AckResult
ack_result tlvs =
    read_optional 0x10 1
      (λ r value. record r { failure_cause = byte_at value 0; has_failure_cause = true }) tlvs
      (record { failure_cause = 0; has_failure_cause = false })

unfoldable pub parse_send_ack_response : Packet → Reported AckResult
parse_send_ack_response resp = report resp (λ r. []) (ack_result resp.tlvs)

abbrev pub no_storage_result : SendFromStorageResult
no_storage_result = record {
  message_id = 0;
  has_message_id = false;
  cdma_cause_code = 0;
  has_cdma_cause_code = false;
  cdma_error_class = 0;
  has_cdma_error_class = false;
  gsm_wcdma_rp_cause = 0;
  has_gsm_wcdma_rp_cause = false;
  gsm_wcdma_tp_cause = 0;
  has_gsm_wcdma_tp_cause = false;
  delivery_failure_type = 0;
  has_delivery_failure_type = false;
}

unfoldable pub storage_result : List Tlv → Result ServiceError SendFromStorageResult
storage_result tlvs = do
  a ←
      read_optional 0x10 2 (λ r v. record r { message_id = u16_at v 0; has_message_id = true }) tlvs
        no_storage_result
  b ←
      read_optional 0x11 2
        (λ r v. record r { cdma_cause_code = u16_at v 0; has_cdma_cause_code = true }) tlvs a
  c ←
      read_optional 0x12 1
        (λ r v. record r { cdma_error_class = byte_at v 0; has_cdma_error_class = true }) tlvs b
  d ←
      read_optional 0x13 3
        (λ r v. record r {
          gsm_wcdma_rp_cause = u16_at v 0;
          has_gsm_wcdma_rp_cause = true;
          gsm_wcdma_tp_cause = byte_at v 2;
          has_gsm_wcdma_tp_cause = true;
        })
        tlvs c
  read_optional 0x14 1
      (λ r v. record r { delivery_failure_type = byte_at v 0; has_delivery_failure_type = true })
      tlvs d

-- A key and its number, which the text prints in base 16.
abbrev pub part : Bool → String → ℕ → List (String × ℕ)
part true key v = (key, v) ∷ []
part false key v = []

unfoldable pub summarize_send_from_storage_result : SendFromStorageResult → List (String × ℕ)
summarize_send_from_storage_result r =
    part r.has_message_id "msg_id" r.message_id
    ++ (part r.has_cdma_cause_code "cdma_cause" r.cdma_cause_code
        ++ (part r.has_cdma_error_class "cdma_class" r.cdma_error_class
            ++ (part r.has_gsm_wcdma_rp_cause "rp_cause" r.gsm_wcdma_rp_cause
                ++ (part r.has_gsm_wcdma_tp_cause "tp_cause" r.gsm_wcdma_tp_cause
                    ++ part r.has_delivery_failure_type "delivery_failure_type"
                        r.delivery_failure_type))))

unfoldable pub parse_send_from_storage_response : Packet → Reported SendFromStorageResult
unfolding storage_result
parse_send_from_storage_response resp =
    report resp summarize_send_from_storage_result (storage_result resp.tlvs)

-- The parts of an entry that is there and long enough.
unfoldable pub entry_parts : ℕ → ℕ → (List ℕ → List (String × ℕ)) → List Tlv → List (String × ℕ)
entry_parts tag size parts tlvs = elim (find_tlv tlvs tag) [
  | none ↦ []
  | some t ↦ if ltb (length t.value) size then [] else parts t.value
]

unfoldable pub summarize_raw_send_response : Packet → List (String × ℕ)
summarize_raw_send_response resp =
    entry_parts 0x01 2 (λ v. ("msg_id", u16_at v 0) ∷ []) resp.tlvs
    ++ (entry_parts 0x10 2 (λ v. ("cdma_cause", u16_at v 0) ∷ []) resp.tlvs
        ++ (entry_parts 0x11 1 (λ v. ("cdma_class", byte_at v 0) ∷ []) resp.tlvs
            ++ (entry_parts 0x12 3 (λ v. ("rp_cause", u16_at v 0) ∷ ("tp_cause", byte_at v 2) ∷ [])
                  resp.tlvs
                ++ entry_parts 0x13 1 (λ v. ("delivery_failure_type", byte_at v 0) ∷ [])
                    resp.tlvs)))

-- The end of `SendRawMessage`.
unfoldable pub check_raw_send : Packet → Result ServiceError (Unit {0})
check_raw_send resp = elim (check_result resp) [
  | none ↦ ok tt
  | some e ↦ elim (summarize_raw_send_response resp) [
    | [] ↦ err (refused e)
    | first ∷ more ↦ err (refused_with e (first ∷ more))
  ]
]
