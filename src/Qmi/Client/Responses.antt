-- ===== src/Qmi/Client/Responses.antt =====
-- Where a response goes: `SendRequest`, `readLoop` and `takeRecentTransaction` of pkg/qmi/client.go.
use qmi_go.Base.{ℕ, ◌≡◌, refl, ap, ◌∙◌, arith, false}
use qmi_go.Base.{◌==◌, none, some, Bool-cases, inl, inr, ==_self}
use qmi_go.Base.Maps.{lookup, insert, lookup-insert}
use qmi_go.Qmi.Packet.{Packet, service_control}
use qmi_go.Qmi.Client.{
  Client, TransactionEntry, begin_transaction, transaction_key, receive_packet, receive_response,
  offer, next_tx_id,
}

-- A packet that answers the request `tx_id` to `service`.
pub record Answers (p : Packet) (service tx_id : ℕ) : Type 0 where
  pub same_service : p.service_type ≡ service
  pub same_transaction : p.transaction_id ≡ tx_id
  pub response : p.is_indication ≡ false

begun_entry :
    (c : Client) (service msg_id ch start deadline : ℕ)
    → let r = begin_transaction c service msg_id ch start deadline in
      lookup (transaction_key service r.1) r.0.transactions
      ≡ some (record {
        ch = ch;
        service = service;
        msg_id = msg_id;
        tx_id = r.1;
        start = start;
        deadline = deadline;
      })
unfolding begin_transaction
begun_entry c service msg_id ch start deadline =
    let r = next_tx_id c service in
    lookup-insert (transaction_key service r.1) (transaction_key service r.1) _ r.0.transactions
    ∙ rw (==_self (transaction_key service r.1)) refl

pub receive_packet-response :
    (c : Client) (p : Packet) (now : ℕ)
    → p.is_indication ≡ false
    → receive_packet c p now ≡ receive_response c p now
unfolding receive_packet
receive_packet-response c p now response = ground (arith, response)

receive_response-found :
    (c : Client) (p : Packet) (entry : TransactionEntry) (now : ℕ)
    → lookup (transaction_key p.service_type p.transaction_id) c.transactions ≡ some entry
    → receive_response c p now ≡ offer c entry.ch p
unfolding receive_response
receive_response-found c p entry now found = rw (found, receive_response) refl

offer-empty :
    (c : Client) (ch : ℕ) (p : Packet)
    → lookup ch c.answers ≡ none
    → offer c ch p ≡ record c { answers = insert ch p c.answers }
unfolding offer
offer-empty c ch p free = rw (free, offer) refl

begun_same :
    (c : Client) (service msg_id ch start deadline : ℕ)
    → let r = begin_transaction c service msg_id ch start deadline in
      (r.0.answers ≡ c.answers)
      × (r.0.dispatched ≡ c.dispatched)
      × (r.0.unmatched_responses ≡ c.unmatched_responses)
unfolding begin_transaction next_tx_id
begun_same c service msg_id ch start deadline = elim (Bool-cases (service == service_control)) [
  | inl e ↦ rw (e, begin_transaction, next_tx_id) (refl, refl, refl)
  | inr e ↦ rw (e, begin_transaction, next_tx_id) (refl, refl, refl)
]

-- The response that is received right after a request began, with nothing else in between, is put into the
-- channel of that request, where that was empty, and goes nowhere else: the other channels, the
-- transactions, the late responses and the events stay as they are.
pub begin-receive :
    (c : Client) (service msg_id ch start deadline now : ℕ) (p : Packet)
    → lookup ch c.answers ≡ none
    → Answers p service (begin_transaction c service msg_id ch start deadline).1
    → let r = begin_transaction c service msg_id ch start deadline in
      let d = receive_packet r.0 p now in
      (d.answers ≡ insert ch p c.answers)
      × (d.dispatched ≡ c.dispatched)
      × (d.unmatched_responses ≡ c.unmatched_responses)
      × (d.transactions ≡ r.0.transactions)
begin-receive c service msg_id ch start deadline now p free a =
    let r = begin_transaction c service msg_id ch start deadline in
    let same = begun_same c service msg_id ch start deadline in
    let key : transaction_key p.service_type p.transaction_id ≡ transaction_key service r.1 =
      omega (arith, a.same_service, a.same_transaction) in
    let got =
      receive_packet-response r.0 p now a.response
      ∙ receive_response-found r.0 p _ now
          (ap (λ k. lookup k r.0.transactions) key ∙ begun_entry c service msg_id ch start deadline)
      ∙ offer-empty r.0 ch p (ap (lookup ch) same.0 ∙ free) in
    (
      ap (λ (d : Client). d.answers) got ∙ ap (insert ch p) same.0,
      ap (λ (d : Client). d.dispatched) got ∙ same.1,
      ap (λ (d : Client). d.unmatched_responses) got ∙ same.2,
      ap (λ (d : Client). d.transactions) got,
    )
