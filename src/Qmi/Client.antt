-- ===== src/Qmi/Client.antt =====
-- pkg/qmi/client.go: transactions, late responses and client numbers. A channel for a response is a
-- number; `answers` holds the packet that is in it. Times are numbers on one clock, the error text of
-- a recent transaction is its cause, and what `dispatchIndication` is given stands in `dispatched`.
pub mod TxIds
pub mod Recent
pub mod Responses
pub mod Late
pub mod ClientIds
use qmi_go.Base.{
  ℕ, zero, suc, ◌+◌, ◌*◌, ◌-◌, ◌%◌, List, [], ◌∷◌, ◌++◌, Bool, true, false, ◌&&◌, ◌||◌, not,
}
use qmi_go.Base.{length, ltb, leb, ◌==◌, if◌then◌else◌, Option, none, some}
use qmi_go.Base.Maps.{lookup, insert, erase}
use qmi_go.Qmi.Tlv.{find_tlv}
use qmi_go.Qmi.Packet.{Packet, service_control}
use qmi_go.Qmi.Ctl.{decode_service_client}

pub record TransactionEntry : Type 0 where
  pub ch : ℕ
  pub service : ℕ
  pub msg_id : ℕ
  pub tx_id : ℕ
  pub start : ℕ
  pub deadline : ℕ

-- The end of a request, as `isContextDone` tells it: its error, or nil.
pub data Cause : Type 0 where
  context_canceled deadline_exceeded connection_failed finished : Cause

pub record RecentTransaction : Type 0 where
  pub service : ℕ
  pub msg_id : ℕ
  pub tx_id : ℕ
  pub start : ℕ
  pub deadline : ℕ
  pub completed_at : ℕ
  pub cause : Cause

pub record Client : Type 0 where
  pub transactions : List (ℕ × TransactionEntry)
  pub recent_transactions : List (ℕ × RecentTransaction)
  pub last_tx_id : ℕ
  pub ctl_tx_id : ℕ
  pub client_ids : List (ℕ × ℕ)
  pub answers : List (ℕ × Packet)
  pub closed_channels : List ℕ
  pub unmatched_responses : ℕ
  pub dispatched : List Packet

-- `atomic.AddUint32(&counter, 1)`.
abbrev pub add_one : ℕ → ℕ
add_one counter = (counter + 1) % 4294967296

-- The counter after a number has been taken from it: once more where the low part is 0.
unfoldable pub bump : ℕ → ℕ → ℕ
bump modulus counter =
    if add_one counter % modulus == 0 then add_one (add_one counter) else add_one counter

unfoldable pub next_tx_id : Client → ℕ → Client × ℕ
next_tx_id c service =
    if service == service_control
    then (record c { ctl_tx_id = bump 256 c.ctl_tx_id }, bump 256 c.ctl_tx_id % 256)
    else (record c { last_tx_id = bump 65536 c.last_tx_id }, bump 65536 c.last_tx_id % 65536)

abbrev pub transaction_key : ℕ → ℕ → ℕ
transaction_key service tx_id = service * 65536 + tx_id

-- `SendRequest` up to the write: the client with the entry, and the transaction number.
unfoldable pub begin_transaction : Client → ℕ → ℕ → ℕ → ℕ → ℕ → Client × ℕ
begin_transaction c service msg_id ch start deadline =
    let (c', tx_id) = next_tx_id c service in
    let entry : TransactionEntry = record {
      ch = ch;
      service = service;
      msg_id = msg_id;
      tx_id = tx_id;
      start = start;
      deadline = deadline;
    } in
    (
      record c' { transactions = insert (transaction_key service tx_id) entry c'.transactions },
      tx_id,
    )

-- `recentTransactionTTL` in milliseconds, and `maxRecentTransactions`.
abbrev pub recent_transaction_ttl : ℕ
recent_transaction_ttl = 120000

abbrev pub max_recent_transactions : ℕ
max_recent_transactions = 256

-- The time since `r` was completed is 0 where the clock is behind.
abbrev pub is_expired : ℕ → RecentTransaction → Bool
is_expired now r = ltb recent_transaction_ttl (now - r.completed_at)

unfoldable pub prune_recent_transactions :
    ℕ → List (ℕ × RecentTransaction) → List (ℕ × RecentTransaction)
prune_recent_transactions now [] = []
prune_recent_transactions now ((key, r) ∷ rest) =
    let more = prune_recent_transactions now rest in
    if is_expired now r then more else (key, r) ∷ more

-- The loop that looks for the oldest entry: the key and the time of the best one so far.
unfoldable pub oldest_key : ℕ → ℕ → List (ℕ × RecentTransaction) → ℕ
oldest_key best time [] = best
oldest_key best time ((key, r) ∷ rest) =
    if ltb r.completed_at time
    then oldest_key key r.completed_at rest
    else oldest_key best time rest

unfoldable pub drop_oldest : List (ℕ × RecentTransaction) → List (ℕ × RecentTransaction)
drop_oldest [] = []
drop_oldest ((key, r) ∷ rest) = erase (oldest_key key r.completed_at rest) ((key, r) ∷ rest)

unfoldable pub make_room : List (ℕ × RecentTransaction) → List (ℕ × RecentTransaction)
make_room m = if leb max_recent_transactions (length m) then drop_oldest m else m

unfoldable pub remember_recent_transaction :
    List (ℕ × RecentTransaction) → ℕ → TransactionEntry → Cause → ℕ → List (ℕ × RecentTransaction)
remember_recent_transaction m key entry cause now =
    insert key
      (record {
        service = entry.service;
        msg_id = entry.msg_id;
        tx_id = entry.tx_id;
        start = entry.start;
        deadline = entry.deadline;
        completed_at = now;
        cause = cause;
      })
      (make_room (prune_recent_transactions now m))

unfoldable pub is_context_done : Cause → Bool
is_context_done context_canceled = true
is_context_done deadline_exceeded = true
is_context_done connection_failed = false
is_context_done finished = false

unfoldable pub complete_transaction : Client → ℕ → TransactionEntry → Cause → ℕ → Client
complete_transaction c key entry cause now =
    let gone : Client = record c { transactions = erase key c.transactions } in
    if is_context_done cause
    then record gone {
      recent_transactions = remember_recent_transaction c.recent_transactions key entry cause now;
    }
    else gone

-- `takeRecentTransaction`: what is left, and whether the response was expected.
unfoldable pub take_recent_transaction :
    List (ℕ × RecentTransaction) → ℕ → ℕ → ℕ → ℕ → List (ℕ × RecentTransaction) × Bool
take_recent_transaction m key service msg_id now = elim (lookup key m) [
  | none ↦ (m, false)
  | some r ↦
      if is_expired now r
      then (erase key m, false)
      else if r.service == service && r.msg_id == msg_id
      then (erase key m, true)
      else (m, false)
]

-- `handleClientIDRevoke`
unfoldable pub revoked : Packet → Option (ℕ × ℕ)
revoked p =
    if p.service_type == service_control && p.message_id == 0x0024
    then elim (find_tlv p.tlvs 0x01) [ none ↦ none | some t ↦ decode_service_client t.value ]
    else none

unfoldable pub revoke_client_id : List (ℕ × ℕ) → ℕ → ℕ → List (ℕ × ℕ)
revoke_client_id ids service client_id = elim (lookup service ids) [
  | none ↦ ids
  | some cached ↦ if cached == client_id then erase service ids else ids
]

unfoldable pub handle_client_id_revoke : Client → Packet → Client
handle_client_id_revoke c p = elim (revoked p) [
  | none ↦ c
  | some (service, client_id) ↦ record c {
    client_ids = revoke_client_id c.client_ids service client_id;
  }
]

unfoldable pub dispatch : Client → Packet → Client
dispatch c p =
    let c' = handle_client_id_revoke c p in record c' { dispatched = c'.dispatched ++ (p ∷ []) }

-- `entry.ch <- packet`, which a full channel does not take.
unfoldable pub offer : Client → ℕ → Packet → Client
offer c ch p = elim (lookup ch c.answers) [
  | some old ↦ c
  | none ↦ record c { answers = insert ch p c.answers }
]

unfoldable pub unmatched : Client → Packet → ℕ → Client
unmatched c p now =
    let (recent, expected) =
      take_recent_transaction c.recent_transactions
        (transaction_key p.service_type p.transaction_id) p.service_type p.message_id now in
    let counted : Client = record c {
      recent_transactions = recent;
      unmatched_responses = c.unmatched_responses + 1;
    } in
    if expected then counted else dispatch counted p

-- What `readLoop` does with a packet at the time `now`: first a packet that is no indication.
unfoldable pub receive_response : Client → Packet → ℕ → Client
receive_response c p now =
    elim (lookup (transaction_key p.service_type p.transaction_id) c.transactions) [
      | some entry ↦ offer c entry.ch p
      | none ↦ if p.service_type == service_control then dispatch c p else unmatched c p now
    ]

unfoldable pub receive_packet : Client → Packet → ℕ → Client
receive_packet c p now = if p.is_indication then dispatch c p else receive_response c p now

unfoldable pub channels_of : List (ℕ × TransactionEntry) → List ℕ
channels_of [] = []
channels_of ((key, entry) ∷ rest) = entry.ch ∷ channels_of rest

unfoldable pub fail_pending_transactions : Client → Client
fail_pending_transactions c = record c {
  transactions = [];
  closed_channels = c.closed_channels ++ channels_of c.transactions;
}
