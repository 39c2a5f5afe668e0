-- ===== src/Qmi/Client/Late.antt =====
-- A response after its request gave up: `completeTransaction`, `rememberRecentTransactionLocked`,
-- `takeRecentTransaction` and `readLoop` of pkg/qmi/client.go.
use qmi_go.Base.{
  ℕ, ◌+◌, ◌-◌, ◌≤◌, ◌≡◌, refl, ap, ◌∙◌, arith, List, [], ◌∷◌, ◌++◌, Bool, true, false,
}
use qmi_go.Base.{◌==◌, if◌then◌else◌, none, some, Option-cases, inl, inr, ==_self, le→ltb_false}
use qmi_go.Base.Maps.{lookup, erase, lookup-insert, lookup-erase}
use qmi_go.Qmi.Packet.{Packet, service_control}
use qmi_go.Qmi.Client.{
  Client, TransactionEntry, RecentTransaction, Cause, is_context_done, transaction_key,
  receive_packet, receive_response, unmatched, dispatch, handle_client_id_revoke,
  complete_transaction, take_recent_transaction, remember_recent_transaction,
  recent_transaction_ttl, make_room, prune_recent_transactions, revoked,
}
use qmi_go.Qmi.Client.Responses.{Answers, receive_packet-response}

-- A response that comes too late, within the time for which its request is remembered.
pub record IsLate (entry : TransactionEntry) (p : Packet) (ended now : ℕ) : Type 0 where
  pub answers_entry : Answers p entry.service entry.tx_id
  pub same_message : p.message_id ≡ entry.msg_id
  pub in_time : now ≤ ended + recent_transaction_ttl

receive_response-unmatched :
    (c : Client) (p : Packet) (now : ℕ)
    → (p.service_type == service_control) ≡ false
    → lookup (transaction_key p.service_type p.transaction_id) c.transactions ≡ none
    → receive_response c p now ≡ unmatched c p now
unfolding receive_response
receive_response-unmatched c p now other missing = rw (missing, other, receive_response) refl

completed_recent :
    (c : Client) (entry : TransactionEntry) (cause : Cause) (ended : ℕ)
    → is_context_done cause ≡ true
    → let key = transaction_key entry.service entry.tx_id in
      lookup key (complete_transaction c key entry cause ended).recent_transactions
      ≡ some (record {
        service = entry.service;
        msg_id = entry.msg_id;
        tx_id = entry.tx_id;
        start = entry.start;
        deadline = entry.deadline;
        completed_at = ended;
        cause = cause;
      })
unfolding complete_transaction remember_recent_transaction
completed_recent c entry cause ended done =
    let key = transaction_key entry.service entry.tx_id in
    rw (done, complete_transaction)
      (lookup-insert key key _ (make_room (prune_recent_transactions ended c.recent_transactions))
        ∙ rw (==_self key) refl)

completed_rest :
    (c : Client) (key : ℕ) (entry : TransactionEntry) (cause : Cause) (ended : ℕ)
    → is_context_done cause ≡ true
    → let d = complete_transaction c key entry cause ended in
      (lookup key d.transactions ≡ none)
      × (d.answers ≡ c.answers)
      × (d.dispatched ≡ c.dispatched)
      × (d.unmatched_responses ≡ c.unmatched_responses)
unfolding complete_transaction
completed_rest c key entry cause ended done =
    rw (done, complete_transaction)
      (lookup-erase key key c.transactions ∙ rw (==_self key) refl, refl, refl, refl)

take_recent_late :
    (m : List (ℕ × RecentTransaction)) (key service msg_id : ℕ) (r : RecentTransaction) (now : ℕ)
    → lookup key m ≡ some r
    → service ≡ r.service
    → msg_id ≡ r.msg_id
    → now ≤ r.completed_at + recent_transaction_ttl
    → take_recent_transaction m key service msg_id now ≡ (erase key m, true)
unfolding take_recent_transaction
take_recent_late m key service msg_id r now found same_service same_message fresh =
    rw (found, take_recent_transaction)
      (rw (le→ltb_false recent_transaction_ttl (now - r.completed_at) (omega (arith, fresh)))
        (ground (arith, same_service, same_message)))

take_recent_missing :
    (m : List (ℕ × RecentTransaction)) (key service msg_id now : ℕ)
    → lookup key m ≡ none
    → take_recent_transaction m key service msg_id now ≡ (m, false)
unfolding take_recent_transaction
take_recent_missing m key service msg_id now missing = rw (missing, take_recent_transaction) refl

-- What `unmatched` counts, when the recent transactions are `m` afterwards.
abbrev counted : Client → List (ℕ × RecentTransaction) → Client
counted c m = record c { recent_transactions = m; unmatched_responses = c.unmatched_responses + 1 }

unmatched-taken :
    (c : Client) (p : Packet) (now : ℕ) (m : List (ℕ × RecentTransaction)) (expected : Bool)
    → take_recent_transaction c.recent_transactions
        (transaction_key p.service_type p.transaction_id)
        p.service_type
        p.message_id
        now
      ≡ (m, expected)
    → unmatched c p now ≡ (if expected then counted c m else dispatch (counted c m) p)
unfolding unmatched
unmatched-taken c p now m expected e = rw (e, unmatched) refl

dispatched_last : (c : Client) (p : Packet) → (dispatch c p).dispatched ≡ c.dispatched ++ (p ∷ [])
unfolding dispatch handle_client_id_revoke
dispatched_last c p = elim (Option-cases (revoked p)) [
  | inl nothing ↦ rw (nothing, handle_client_id_revoke) refl
  | inr (ids, e) ↦ rw (e, handle_client_id_revoke) refl
]

erased : {V : Type 0} (k key : ℕ) (m : List (ℕ × V)) → k ≡ key → lookup k (erase key m) ≡ none
erased k key m e = ground (arith, lookup-erase key k m, e)

-- A response of a service other than CTL that comes after its request was cancelled or ran out of
-- time, while the request is remembered, is counted and goes no further; a second copy of it is dispatched.
pub complete-receive_late :
    (c : Client) (entry : TransactionEntry) (cause : Cause) (ended now : ℕ) (p : Packet)
    → is_context_done cause ≡ true
    → (p.service_type == service_control) ≡ false
    → IsLate entry p ended now
    → let key = transaction_key entry.service entry.tx_id in
      let once = receive_packet (complete_transaction c key entry cause ended) p now in
      (once.dispatched ≡ c.dispatched)
      × (once.answers ≡ c.answers)
      × (once.unmatched_responses ≡ c.unmatched_responses + 1)
      × ((receive_packet once p now).dispatched ≡ c.dispatched ++ (p ∷ []))
complete-receive_late c entry cause ended now p done other late =
    let key = transaction_key entry.service entry.tx_id in
    let k = transaction_key p.service_type p.transaction_id in
    let d = complete_transaction c key entry cause ended in
    let rest = completed_rest c key entry cause ended done in
    let a = late.answers_entry in
    let same : k ≡ key = omega (arith, a.same_service, a.same_transaction) in
    let recent =
      ap (λ x. lookup x d.recent_transactions) same ∙ completed_recent c entry cause ended done in
    let missing = ap (λ x. lookup x d.transactions) same ∙ rest.0 in
    let after = counted d (erase k d.recent_transactions) in
    let first : receive_packet d p now ≡ after =
      receive_packet-response d p now a.response
      ∙ receive_response-unmatched d p now other missing
      ∙ unmatched-taken d p now _ true (
          take_recent_late d.recent_transactions k p.service_type p.message_id _ now recent
            a.same_service late.same_message late.in_time) in
    let second : receive_packet after p now ≡ dispatch (counted after after.recent_transactions) p =
      receive_packet-response after p now a.response
      ∙ receive_response-unmatched after p now other missing
      ∙ unmatched-taken after p now _ false (
          take_recent_missing after.recent_transactions k p.service_type p.message_id now
            (erased k k d.recent_transactions refl)) in
    (
      ap (λ (x : Client). x.dispatched) first ∙ rest.2,
      ap (λ (x : Client). x.answers) first ∙ rest.1,
      ap (λ (x : Client). x.unmatched_responses) first ∙ ap (λ n. n + 1) rest.3,
      ap (λ (x : Client). (receive_packet x p now).dispatched) first
          ∙ ap (λ (x : Client). x.dispatched) second
          ∙ dispatched_last (counted after after.recent_transactions) p
          ∙ ap (λ l. l ++ (p ∷ [])) rest.2,
    )
