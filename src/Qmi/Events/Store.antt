-- ===== src/Qmi/Events/Store.antt =====
-- The store of coalesced events as a queue of keys, each with its latest event.
use qmi_go.Base.{
  ℕ, ◌≡◌, refl, sym, ◌∙◌, ap, arith, List, [], ◌∷◌, ◌++◌, Bool, true, false, ◌||◌, ◌&&◌, not,
}
use qmi_go.Base.{Option, none, some, ◌==◌, Bool-cases, Option-cases, inl, inr}
use qmi_go.Base.Maps.{lookup, insert, erase, lookup-insert, lookup-erase}
use qmi_go.Qmi.Events.{
  Event, CoalescedEventStore, has_key, store_coalesced_event, pop_loop, pop_coalesced_event,
}

-- The queue that the store stands for: its keys in their order, each with its event.
unfoldable pub view : List (ℕ × Event) → List ℕ → List (ℕ × Event)
view events [] = []
view events (key ∷ order) =
    let rest = view events order in
    elim (lookup key events) [ none ↦ rest | some e ↦ (key, e) ∷ rest ]

abbrev occurs : ℕ → List ℕ → Bool
occurs key [] = false
occurs key (x ∷ rest) = x == key || occurs key rest

abbrev Distinct : List ℕ → Type 0
Distinct [] = Unit
Distinct (x ∷ rest) = (occurs x rest ≡ false) × Distinct rest

-- Each key of the order has an event, each event a place in the order, and only one.
pub record IsStore (s : CoalescedEventStore) : Type 0 where
  pub distinct : Distinct s.order
  pub placed : (key : ℕ) → has_key key s.events ≡ occurs key s.order

view-insert_absent :
    (key : ℕ) (e : Event) (events : List (ℕ × Event)) (order : List ℕ)
    → occurs key order ≡ false
    → view (insert key e events) order ≡ view events order
unfolding view
view-insert_absent key e events [] h = refl
view-insert_absent key e events (x ∷ order) h =
    ground (arith, lookup-insert key x e events, view-insert_absent key e events order)

view-erase_absent :
    (key : ℕ) (events : List (ℕ × Event)) (order : List ℕ)
    → occurs key order ≡ false
    → view (erase key events) order ≡ view events order
unfolding view
view-erase_absent key events [] h = refl
view-erase_absent key events (x ∷ order) h =
    ground (arith, lookup-erase key x events, view-erase_absent key events order)

view-insert_old :
    (key : ℕ) (e : Event) (events : List (ℕ × Event)) (order : List ℕ)
    → Distinct order
    → occurs key order ≡ true
    → has_key key events ≡ true
    → view (insert key e events) order ≡ insert key e (view events order)
unfolding view insert has_key
view-insert_old key e events [] d o h = absurd (ground arith)
view-insert_old key e events (x ∷ order) d o h = ground (
  arith,
  lookup-insert key x e events,
  view-insert_old key e events order d.1,
  view-insert_absent key e events order,
)

view-insert_new :
    (key : ℕ) (e : Event) (events : List (ℕ × Event)) (order : List ℕ)
    → occurs key order ≡ false
    → view (insert key e events) (order ++ (key ∷ [])) ≡ insert key e (view events order)
unfolding view insert
view-insert_new key e events [] o = ground (arith, lookup-insert key key e events)
view-insert_new key e events (x ∷ order) o =
    ground (arith, lookup-insert key x e events, view-insert_new key e events order)

occurs-append :
    (key j : ℕ) (order : List ℕ) → occurs j (order ++ (key ∷ [])) ≡ (occurs j order || key == j)
occurs-append key j [] = ground arith
occurs-append key j (x ∷ order) = ground (arith, occurs-append key j order)

Distinct-append :
    (key : ℕ) (order : List ℕ)
    → Distinct order
    → occurs key order ≡ false
    → Distinct (order ++ (key ∷ []))
Distinct-append key [] d o = (refl, tt)
Distinct-append key (x ∷ order) d o =
    ground (arith, occurs-append key x order, Distinct-append key order d.1)

has_key-insert :
    (key j : ℕ) (e : Event) (events : List (ℕ × Event))
    → has_key j (insert key e events) ≡ (key == j || has_key j events)
unfolding has_key
has_key-insert key j e events = ground (arith, lookup-insert key j e events)

has_key-erase :
    (key j : ℕ) (events : List (ℕ × Event))
    → has_key j (erase key events) ≡ (not (key == j) && has_key j events)
unfolding has_key
has_key-erase key j events = ground (arith, lookup-erase key j events)

insert_event-IsStore :
    (s : CoalescedEventStore) (key : ℕ) (e : Event)
    → IsStore s
    → IsStore (store_coalesced_event s key e)
unfolding store_coalesced_event
insert_event-IsStore s key e v = elim (Bool-cases (has_key key s.events)) [
  | inl known ↦ record {
    distinct = rw known v.distinct;
    placed = λ j. ground (arith, has_key-insert key j e s.events, v.placed j, v.placed key);
  }
  | inr new ↦ record {
    distinct = rw new (Distinct-append key s.order v.distinct (sym (v.placed key) ∙ new));
    placed = λ j.
        ground (arith, has_key-insert key j e s.events, v.placed j, occurs-append key j s.order);
  }
]

abbrev pub view_of : CoalescedEventStore → List (ℕ × Event)
view_of s = view s.events s.order

view-store :
    (s : CoalescedEventStore) (key : ℕ) (e : Event)
    → IsStore s
    → view_of (store_coalesced_event s key e) ≡ insert key e (view_of s)
unfolding store_coalesced_event
view-store s key e v = elim (Bool-cases (has_key key s.events)) [
  | inl known ↦
      rw known
        (view-insert_old key e s.events s.order v.distinct (sym (v.placed key) ∙ known) known)
  | inr new ↦ rw new (view-insert_new key e s.events s.order (sym (v.placed key) ∙ new))
]

-- What a pop gives, of a queue of keys with their events.
abbrev pub popped : List (ℕ × Event) → Option Event
popped [] = none
popped ((key, e) ∷ rest) = some e

abbrev pub left_over : List (ℕ × Event) → List (ℕ × Event)
left_over [] = []
left_over ((key, e) ∷ rest) = rest

pub record IsPopped (view_before : List (ℕ × Event)) (r : CoalescedEventStore × Option Event)
    : Type 0 where
  pub valid : IsStore r.0
  pub event : r.1 ≡ popped view_before
  pub rest : view_of r.0 ≡ left_over view_before

pop_loop-IsPopped :
    (events : List (ℕ × Event)) (order : List ℕ)
    → IsStore (record { events = events; order = order })
    → IsPopped (view events order) (pop_loop events order)
unfolding pop_loop view has_key
pop_loop-IsPopped events [] v = record { valid = v; event = refl; rest = refl }
pop_loop-IsPopped events (key ∷ order) v = elim (Option-cases (lookup key events)) [
  | inl none_there ↦ absurd (ground (arith, v.placed key))
  | inr (e, found) ↦
      rw (found, pop_loop, view)
        (record {
          valid = record {
            distinct = v.distinct.1;
            placed = λ j. ground (arith, lookup-erase key j events, v.placed j, v.distinct);
          };
          event = refl;
          rest = view-erase_absent key events order v.distinct.0;
        })
]

pub pop-IsPopped :
    (s : CoalescedEventStore) → IsStore s → IsPopped (view_of s) (pop_coalesced_event s)
unfolding pop_coalesced_event
pop-IsPopped s v = pop_loop-IsPopped s.events s.order v

-- A history of the store: events that come in, and pops.
pub data StoreOp : Type 0 where
  stores : ℕ → Event → StoreOp
  pops : StoreOp

-- What the pops of a history give.
unfoldable pub run : CoalescedEventStore → List StoreOp → List (Option Event)
run s [] = []
run s (stores key e ∷ rest) = run (store_coalesced_event s key e) rest
run s (pops ∷ rest) = (pop_coalesced_event s).1 ∷ run (pop_coalesced_event s).0 rest

-- The same, for a plain queue in which an event replaces the one of its key, in place, or goes to
-- the end.
unfoldable pub run_queue : List (ℕ × Event) → List StoreOp → List (Option Event)
run_queue q [] = []
run_queue q (stores key e ∷ rest) = run_queue (insert key e q) rest
run_queue q (pops ∷ rest) = popped q ∷ run_queue (left_over q) rest

run-view :
    (s : CoalescedEventStore) (ops : List StoreOp)
    → IsStore s
    → run s ops ≡ run_queue (view_of s) ops
unfolding run run_queue
run-view s [] v = refl
run-view s (stores key e ∷ ops) v =
    run-view (store_coalesced_event s key e) ops (insert_event-IsStore s key e v)
    ∙ ap (λ q. run_queue q ops) (view-store s key e v)
run-view s (pops ∷ ops) v =
    let p = pop-IsPopped s v in
    rw (run-view (pop_coalesced_event s).0 ops p.valid, p.event, p.rest) refl

abbrev pub empty_store : CoalescedEventStore
empty_store = record { events = []; order = [] }

-- Whatever comes in and is popped, from an empty store on: the pops give what a plain queue gives in
-- which an event takes the place of the earlier one of its key, or else goes to the end.
pub run-run_queue : (ops : List StoreOp) → run empty_store ops ≡ run_queue [] ops
unfolding view has_key lookup
run-run_queue ops = run-view empty_store ops (record { distinct = tt; placed = λ key. refl })
