-- ===== src/Qmi/Ctl/Identifiers.antt =====
-- The service-identifier entry, both widths.
use qmi_go.Base.{ℕ, ◌≡◌, refl, arith, length, leb, ◌≤◌, some, Bool-cases, inl, inr}
use qmi_go.Base.Words.{IsU16}
use qmi_go.Qmi.Ctl.{
  encode_service_only, decode_service_only, encode_service_client, decode_service_client,
}

-- Both entries of every 16-bit service read back, in the narrow form and in the wide one, and a
-- service of eight bits takes the one byte that real modems know.
pub decode-encode_service :
    (service client_id : ℕ)
    → IsU16 service
    → (decode_service_only (encode_service_only service).value ≡ some service)
      × (decode_service_client (encode_service_client service client_id).value
          ≡ some (service, client_id))
      × (service ≤ 0xff → length (encode_service_client service client_id).value ≡ 2)
unfolding encode_service_only decode_service_only encode_service_client decode_service_client
decode-encode_service service client_id h = elim (Bool-cases (leb service 0xff)) [
  | inl narrow ↦ rw narrow (ground arith, ground arith, λ _. refl)
  | inr wide ↦ rw wide (ground arith, ground arith, λ n. absurd (ground arith))
]
