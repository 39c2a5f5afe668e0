-- ===== src/Tests/Requests.antt =====
-- Requests, client numbers and events of pkg/qmi/client.go.
use qmi_go.Base.{◌+◌, ◌≤◌, ◌≡◌, ◌≢◌, refl, arith, true, false, List, [], ◌∷◌, ◌++◌}
use qmi_go.Base.{◌==◌, if◌then◌else◌}
use qmi_go.Base.Maps.{lookup, insert}
use qmi_go.Qmi.Tlv.{find_tlv}
use qmi_go.Qmi.Packet.{Packet}
use qmi_go.Qmi.Client.{
  Client, TransactionEntry, deadline_exceeded, next_tx_id, begin_transaction, receive_packet,
  complete_transaction, transaction_key, revoked, bump,
}
use qmi_go.Qmi.Client.TxIds.{after_requests, numbers, next_tx_id-fresh}
use qmi_go.Qmi.Client.Responses.{begin-receive}
use qmi_go.Qmi.Client.Late.{complete-receive_late}
use qmi_go.Qmi.Client.ClientIds.{get_client_id, receive-revoke}
use qmi_go.Qmi.Ctl.{encode_service_client}
use qmi_go.Qmi.Events.{
  Event, Indications, CoalescedEventStore, coalescing_key, has_room, enqueue_indication, expires,
  event_of, key_number, is_coalesced,
}
use qmi_go.Qmi.Events.Store.{
  StoreOp, stores, pops, run, run_queue, empty_store, run-run_queue, IsStore,
}
use qmi_go.Qmi.Events.Flow.{deliver_rounds, IsServed, deliver_rounds-IsServed}

-- Both counters stand before a wrap.
abbrev old_client : Client
old_client = record {
  transactions = [];
  recent_transactions = [];
  last_tx_id = 4294967295;
  ctl_tx_id = 255;
  client_ids = (3, 7) ∷ (1, 2) ∷ [];
  answers = [];
  closed_channels = [];
  unmatched_responses = 0;
  dispatched = [];
}

next_tx_id-fresh_example :
    (1 ≤ (next_tx_id old_client 3).1)
    × ((next_tx_id old_client 3).1 ≤ numbers 3)
    × ((next_tx_id (after_requests (3 ∷ 0 ∷ 5 ∷ []) (next_tx_id old_client 3).0) 3).1
        ≢ (next_tx_id old_client 3).1)
next_tx_id-fresh_example = next_tx_id-fresh old_client 3 (3 ∷ 0 ∷ 5 ∷ []) (omega arith)

abbrev nas_entry : TransactionEntry
nas_entry = record { ch = 4; service = 3; msg_id = 0x4d; tx_id = 1; start = 10; deadline = 30010 }

abbrev nas_response : Packet
nas_response = record {
  service_type = 3;
  client_id = 7;
  transaction_id = 1;
  message_id = 0x4d;
  is_indication = false;
  tlvs = [];
}

begin-receive_example :
    let r = begin_transaction old_client 3 0x4d 4 10 30010 in
    let d = receive_packet r.0 nas_response 20 in
    (d.answers ≡ insert 4 nas_response old_client.answers)
    × (d.dispatched ≡ old_client.dispatched)
    × (d.unmatched_responses ≡ old_client.unmatched_responses)
    × (d.transactions ≡ r.0.transactions)
unfolding begin_transaction next_tx_id lookup bump
begin-receive_example =
    begin-receive old_client 3 0x4d 4 10 30010 20 nas_response refl
      (record { same_service = refl; same_transaction = refl; response = refl })

complete-receive_late_example :
    let once =
      receive_packet
        (complete_transaction old_client (transaction_key 3 1) nas_entry deadline_exceeded 30010)
        nas_response
        31000 in
    (once.dispatched ≡ old_client.dispatched)
    × (once.answers ≡ old_client.answers)
    × (once.unmatched_responses ≡ old_client.unmatched_responses + 1)
    × ((receive_packet once nas_response 31000).dispatched
        ≡ old_client.dispatched ++ (nas_response ∷ []))
unfolding qmi_go.Qmi.Client.is_context_done
complete-receive_late_example =
    complete-receive_late old_client nas_entry deadline_exceeded 30010 31000 nas_response refl refl
      (record {
        answers_entry = record { same_service = refl; same_transaction = refl; response = refl };
        same_message = refl;
        in_time = omega arith;
      })

abbrev revoke_nas : Packet
revoke_nas = record {
  service_type = 0;
  client_id = 0;
  transaction_id = 0;
  message_id = 0x24;
  is_indication = true;
  tlvs = record { tag = 0x01; value = 3 ∷ 7 ∷ [] } ∷ [];
}

receive-revoke_example :
    let d = receive_packet old_client revoke_nas 5 in
    (get_client_id d 3
      ≡ (if get_client_id old_client 3 == 7 then 0 else get_client_id old_client 3))
    × (get_client_id d 1 ≡ get_client_id old_client 1)
    × (d.dispatched ≡ old_client.dispatched ++ (revoke_nas ∷ []))
unfolding revoked find_tlv qmi_go.Qmi.Ctl.decode_service_client
receive-revoke_example = receive-revoke old_client revoke_nas 3 7 1 5 refl refl refl

abbrev signal_info : Packet
signal_info = record nas_response { message_id = 0x51; is_indication = true }

abbrev signal_event : Event
signal_event = record { event_type = 5; service_id = 3; message_id = 0x51; packet = signal_info }

abbrev events : List StoreOp
events =
    stores 5 signal_event
    ∷ stores 9 (event_of revoke_nas)
    ∷ stores 5 (event_of nas_response)
    ∷ pops
    ∷ pops
    ∷ pops
    ∷ []

run-run_queue_example : run empty_store events ≡ run_queue [] events
run-run_queue_example = run-run_queue events

abbrev full_queue : Indications
full_queue = record {
  indication_in = event_of nas_response ∷ [];
  capacity = 1;
  coalesced = record { events = (5, signal_event) ∷ []; order = 5 ∷ [] };
  event_ch = [];
  coalesced_indications = 1;
  dropped_edge_indications = 0;
}

full_queue-IsStore : IsStore full_queue.coalesced
unfolding qmi_go.Qmi.Events.has_key lookup
full_queue-IsStore = record { distinct = (refl, tt); placed = λ key. ground arith }

deliver_rounds-IsServed_example : IsServed 2 full_queue (deliver_rounds 2 full_queue)
deliver_rounds-IsServed_example = deliver_rounds-IsServed 2 full_queue full_queue-IsStore
