-- ===== src/Qmi/Events.antt =====
-- pkg/qmi/client.go: what becomes of an indication, from dispatchIndication to the event channel.
-- Counters are unbounded here, and the signal that wakes the loop is left out. The key of a
-- coalesced event is a string in the source; its parts are
-- the event's type, which fixes the prefix, the service and the message, and here they spell a number.
pub mod Store
pub mod Flow
use qmi_go.Base.{ℕ, ◌+◌, ◌*◌, List, [], ◌∷◌, ◌++◌, Bool, true, false, ◌&&◌, ◌||◌}
use qmi_go.Base.{length, ltb, ◌==◌, if◌then◌else◌, Option, none, some}
use qmi_go.Base.Maps.{lookup, insert, erase}
use qmi_go.Qmi.Packet.{Packet}
-- The constants of `EventType`, by their numbers.
pub mod Kind

pub record Event : Type 0 where
  pub event_type : ℕ
  pub service_id : ℕ
  pub message_id : ℕ
  pub packet : Packet

-- `coalescedEventStore`: the map, and the keys in the order of their arrival.
pub record CoalescedEventStore : Type 0 where
  pub events : List (ℕ × Event)
  pub order : List ℕ

unfoldable pub has_key : ℕ → List (ℕ × Event) → Bool
has_key key m = elim (lookup key m) [ none ↦ false | some e ↦ true ]

unfoldable pub store_coalesced_event : CoalescedEventStore → ℕ → Event → CoalescedEventStore
store_coalesced_event s key event = record {
  events = insert key event s.events;
  order = if has_key key s.events then s.order else s.order ++ (key ∷ []);
}

-- The loop of `popCoalescedEvent`: keys without an event are passed over.
unfoldable pub pop_loop : List (ℕ × Event) → List ℕ → CoalescedEventStore × Option Event
pop_loop events [] = (record { events = events; order = [] }, none)
pop_loop events (key ∷ order) =
    let later = pop_loop (erase key events) order in
    elim (lookup key events) [
      | some event ↦ (record { events = erase key events; order = order }, some event)
      | none ↦ later
    ]

unfoldable pub pop_coalesced_event : CoalescedEventStore → CoalescedEventStore × Option Event
unfolding pop_loop
pop_coalesced_event s = pop_loop s.events s.order

-- The event types whose indications may replace an earlier one.
unfoldable pub is_coalesced : ℕ → Bool
is_coalesced kind =
    kind == Kind.packet_service_status_changed
    || (kind == Kind.serving_system_changed
        || (kind == Kind.nas_operator_name_changed
            || (kind == Kind.nas_network_time_changed
                || (kind == Kind.nas_signal_info_changed
                    || (kind == Kind.nas_network_reject
                        || (kind == Kind.nas_incremental_network_scan
                            || (kind == Kind.nas_event_report
                                || (kind == Kind.wms_transport_network_registration_status
                                    || (kind == Kind.modem_reset
                                        || kind == Kind.uim_session_closed)))))))))

abbrev pub key_number : Event → ℕ
key_number e = (e.event_type * 65536 + e.service_id) * 65536 + e.message_id

unfoldable pub coalescing_key : Event → Option ℕ
coalescing_key e = if is_coalesced e.event_type then some (key_number e) else none

-- The channels and stores of the client that events pass. `event_ch` is what the reader of `Events`
-- has been given; it takes an event whenever one is offered to it.
pub record Indications : Type 0 where
  pub indication_in : List Event
  pub capacity : ℕ
  pub coalesced : CoalescedEventStore
  pub event_ch : List Event
  pub coalesced_indications : ℕ
  pub dropped_edge_indications : ℕ

unfoldable pub take_queued : Indications → Indications
take_queued c = elim c.indication_in [
  | [] ↦ c
  | e ∷ rest ↦ record c { indication_in = rest; event_ch = c.event_ch ++ (e ∷ []) }
]

-- One round of `indicationLoop` that delivers: coalesced events go first.
unfoldable pub deliver_next : Indications → Indications
deliver_next c =
    let (store, popped) = pop_coalesced_event c.coalesced in
    elim popped [
      | some e ↦ record c { coalesced = store; event_ch = c.event_ch ++ (e ∷ []) }
      | none ↦ take_queued (record c { coalesced = store })
    ]

abbrev pub queue_event : Indications → Event → Indications
queue_event c e = record c { indication_in = c.indication_in ++ (e ∷ []) }

abbrev pub has_room : Indications → Bool
has_room c = ltb (length c.indication_in) c.capacity

-- A wait for room in a full queue: rounds of the loop, until there is room, the client is closed or
-- the timer runs out.
pub data Wait : Type 0 where
  serves : Wait → Wait
  closes expires : Wait

unfoldable pub wait_event : Indications → Event → Wait → Indications
wait_event c e (serves wait) =
    let more = wait_event (deliver_next c) e wait in
    if has_room (deliver_next c) then queue_event (deliver_next c) e else more
wait_event c e closes = c
wait_event c e expires = record c { dropped_edge_indications = c.dropped_edge_indications + 1 }

-- `enqueueIndication`, where `indicationInCh` is not nil, as in every client that is opened.
unfoldable pub enqueue_indication : Indications → Event → Wait → Indications
enqueue_indication c e wait =
    let full = wait_event c e wait in
    if has_room c then queue_event c e else elim (coalescing_key e) [
      | none ↦ full
      | some key ↦ record c {
        coalesced = store_coalesced_event c.coalesced key e;
        coalesced_indications = c.coalesced_indications + 1;
      }
    ]

-- `dispatchIndication`, without the revoke that Qmi/Client models.
unfoldable pub event_of : Packet → Event
event_of p = record {
  event_type = Kind.kind_of p.service_type p.message_id;
  service_id = p.service_type;
  message_id = p.message_id;
  packet = p;
}
