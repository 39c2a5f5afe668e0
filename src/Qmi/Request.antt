-- ===== src/Qmi/Request.antt =====
-- What the services share: SendRequest of pkg/qmi/client.go as they see it, the entries that
-- NewTLVUint8 and its kin of pkg/qmi/frame.go build, and the loop over the forms of a request.
pub mod InTurn
use Prim.Native.String.{String}
use qmi_go.Base.{ℕ, ◌+◌, List, [], ◌∷◌, Bool, true, false, length, ltb, ◌==◌, if◌then◌else◌}
use qmi_go.Base.{◌≡◌, refl, Option, none, some, Result, ok, err}
use qmi_go.Base.Words.{low_byte, high_byte, put_u32}
use qmi_go.Qmi.Tlv.{Tlv, find_tlv}
use qmi_go.Qmi.Packet.{Packet, CheckError, check_result}
use qmi_go.Qmi.Client.{Cause}

unfoldable pub bool_to_uint8 : Bool → ℕ
bool_to_uint8 true = 1
bool_to_uint8 false = 0

unfoldable pub new_tlv_uint8 : ℕ → ℕ → Tlv
new_tlv_uint8 tag v = record { tag = tag; value = v ∷ [] }

unfoldable pub new_tlv_uint16 : ℕ → ℕ → Tlv
new_tlv_uint16 tag v = record { tag = tag; value = low_byte v ∷ high_byte v ∷ [] }

unfoldable pub new_tlv_uint32 : ℕ → ℕ → Tlv
new_tlv_uint32 tag v = record { tag = tag; value = put_u32 v [] }

-- The arguments of `SendRequest` but the context.
pub record Request : Type 0 where
  pub service : ℕ
  pub client_id : ℕ
  pub message_id : ℕ
  pub tlvs : List Tlv

-- `SendRequest` on a state of client, modem and clock.
abbrev pub Sender : Type 0 → Type 0
Sender S = S → Request → Result Cause Packet × S

pub data ServiceError : Type 0 where
  request_failed : Cause → ServiceError
  refused : CheckError → ServiceError
  -- The numbers that a summary names, each with its key.
  refused_with : CheckError → List (String × ℕ) → ServiceError
  missing_entry short_entry truncated_entry empty_entry : ServiceError

-- `if err != nil { return nil, err }` after `SendRequest`, and then the rest of the method.
unfoldable pub read_reply {ℓ} :
    {A : Type ℓ} → (Packet → Result ServiceError A) → Result Cause Packet → Result ServiceError A
read_reply parse (ok resp) = parse resp
read_reply parse (err e) = err (request_failed e)

unfoldable pub exchange {ℓ} :
    {S : Type 0} {A : Type ℓ}
    → Sender S
    → (Packet → Result ServiceError A)
    → S
    → Request
    → Result ServiceError A × S
exchange send parse s request = let r = send s request in (read_reply parse r.0, r.1)

-- `if err := resp.CheckResult(); err != nil { return … }`, and then the rest.
unfoldable pub checked {ℓ} :
    {A : Type ℓ} → (Packet → Result ServiceError A) → Packet → Result ServiceError A
checked parse resp = elim (check_result resp) [ some e ↦ err (refused e) | none ↦ parse resp ]

pub checked-success {ℓ} :
    {A : Type ℓ} (parse : Packet → Result ServiceError A) (p : Packet)
    → check_result p ≡ none
    → checked parse p ≡ parse p
unfolding checked
checked-success parse p success = rw (success, checked) refl

abbrev pub accept : Packet → Result ServiceError (Unit {0})
accept resp = ok tt

-- `FindTLV`, the tests for nil and for a length below `size`, and then the rest on the value.
unfoldable pub with_entry {ℓ} :
    {A : Type ℓ} → ℕ → ℕ → (List ℕ → Result ServiceError A) → Packet → Result ServiceError A
with_entry tag size parse resp = elim (find_tlv resp.tlvs tag) [
  | none ↦ err missing_entry
  | some t ↦ if ltb (length t.value) size then err short_entry else parse t.value
]

-- The loop that sends one form of a request after another until one succeeds; the first form stands
-- apart, since no caller has an empty list of them.
unfoldable pub try_in_turn {ℓ} :
    {S A : Type ℓ} {F E : Type ℓ} → (S → F → Result E A × S) → S → F → List F → Result E A × S
try_in_turn attempt s form [] = attempt s form
try_in_turn attempt s form (next ∷ more) =
    let (answer, t) = attempt s form in
    elim answer [ ok a ↦ (ok a, t) | err e ↦ try_in_turn attempt t next more ]
