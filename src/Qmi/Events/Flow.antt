-- ===== src/Qmi/Events/Flow.antt =====
-- In which order events reach the reader, and what a full queue does.
use qmi_go.Base.{
  ℕ, zero, suc, ◌≡◌, refl, sym, ap, ◌∙◌, arith, List, [], ◌∷◌, ◌++◌, append_assoc, append-nil,
}
use qmi_go.Base.{none, some, Option-cases, inl, inr, take, drop, false}
use qmi_go.Base.Maps.{lookup, lookup-insert}
use qmi_go.Qmi.Events.{
  Event, Indications, pop_coalesced_event, take_queued, deliver_next, enqueue_indication, Wait,
  coalescing_key, has_room, store_coalesced_event,
}
use qmi_go.Qmi.Events.Store.{IsStore, view_of, popped, left_over, pop-IsPopped}

abbrev events_in : List (ℕ × Event) → List Event
events_in [] = []
events_in ((key, e) ∷ rest) = e ∷ events_in rest

-- What has not been delivered yet, in the order of its delivery.
abbrev pub pending : Indications → List Event
pending c = events_in (view_of c.coalesced) ++ c.indication_in

popped-none :
    (q : List (ℕ × Event)) → popped q ≡ none → (events_in q ≡ []) × (events_in (left_over q) ≡ [])
popped-none [] e = (refl, refl)
popped-none ((k, x) ∷ q) e = absurd (cc)

popped-some :
    (q : List (ℕ × Event)) (e : Event)
    → popped q ≡ some e
    → events_in q ≡ e ∷ events_in (left_over q)
popped-some [] e h = absurd (cc)
popped-some ((k, x) ∷ q) e h = cc

pub record IsServed (n : ℕ) (c d : Indications) : Type 0 where
  pub valid : IsStore d.coalesced
  pub given : d.event_ch ≡ c.event_ch ++ take n (pending c)
  pub left : pending d ≡ drop n (pending c)

take_queued-IsServed :
    (c d : Indications)
    → IsStore d.coalesced
    → events_in (view_of c.coalesced) ≡ []
    → events_in (view_of d.coalesced) ≡ []
    → d.event_ch ≡ c.event_ch
    → (queue : List Event) → d.indication_in ≡ queue
    → c.indication_in ≡ queue
    → IsServed 1 c (take_queued d)
unfolding take_queued
take_queued-IsServed c d v none_c none_d same [] q r = record {
  valid = rw q v;
  given = rw (q, none_c, r) (same ∙ sym (append-nil c.event_ch));
  left = rw (q, none_c, r, none_d) refl;
}
take_queued-IsServed c d v none_c none_d same (e ∷ rest) q r = record {
  valid = rw q v;
  given = rw (q, none_c, r, same) refl;
  left = rw (q, none_c, r, none_d) refl;
}

deliver_next-IsServed : (c : Indications) → IsStore c.coalesced → IsServed 1 c (deliver_next c)
unfolding deliver_next
deliver_next-IsServed c v =
    let p = pop-IsPopped c.coalesced v in
    elim (Option-cases (pop_coalesced_event c.coalesced).1) [
      | inl nothing ↦
          let empty = popped-none (view_of c.coalesced) (sym p.event ∙ nothing) in
          rw (nothing, deliver_next)
            (take_queued-IsServed c (record c { coalesced = (pop_coalesced_event c.coalesced).0 })
              p.valid empty.0 (ap events_in p.rest ∙ empty.1) refl c.indication_in refl refl)
      | inr (e, got) ↦
          let first = popped-some (view_of c.coalesced) e (sym p.event ∙ got) in
          rw (got, deliver_next)
            (record { valid = p.valid; given = rw first refl; left = rw (first, p.rest) refl })
    ]

unfoldable pub deliver_rounds : ℕ → Indications → Indications
deliver_rounds zero c = c
deliver_rounds (suc n) c = deliver_rounds n (deliver_next c)

take_step :
    {A : Type 0} (n : ℕ) (xs : List A)
    → (take (suc n) xs ≡ take 1 xs ++ take n (drop 1 xs)) × (drop (suc n) xs ≡ drop n (drop 1 xs))
take_step zero [] = (refl, refl)
take_step (suc n) [] = (refl, refl)
take_step n (x ∷ xs) = (refl, refl)

-- With a valid store, the rounds of the loop give the reader the coalesced events first, in the
-- order of their keys'
-- arrival, and then the queued ones in their order: after n rounds, the first n of them, and what
-- waits is the rest.
pub deliver_rounds-IsServed :
    (n : ℕ) (c : Indications) → IsStore c.coalesced → IsServed n c (deliver_rounds n c)
unfolding deliver_rounds
deliver_rounds-IsServed zero c v = record {
  valid = v;
  given = sym (append-nil c.event_ch);
  left = refl;
}
deliver_rounds-IsServed (suc n) c v =
    let one = deliver_next-IsServed c v in
    let more = deliver_rounds-IsServed n (deliver_next c) one.valid in
    let split = take_step n (pending c) in
    record {
      valid = more.valid;
      given =
          rw (more.given, one.given, one.left, split.0)
            (append_assoc c.event_ch (take 1 (pending c)) (take n (drop 1 (pending c))));
      left = rw (more.left, one.left, split.1) refl;
    }

-- An indication that may be coalesced never waits and is never dropped: with a full queue, it becomes
-- the event that the store holds for its key, the queue stays, and no wait changes that.
pub enqueue-coalesced :
    (c : Indications) (e : Event) (wait : Wait) (key : ℕ)
    → coalescing_key e ≡ some key
    → has_room c ≡ false
    → let d = enqueue_indication c e wait in
      (lookup key d.coalesced.events ≡ some e)
      × (d.indication_in ≡ c.indication_in)
      × (d.event_ch ≡ c.event_ch)
      × (d.dropped_edge_indications ≡ c.dropped_edge_indications)
unfolding enqueue_indication store_coalesced_event
enqueue-coalesced c e wait key k full = ground (arith, lookup-insert key key e c.coalesced.events)
