-- ===== src/Projector/NodeBuffer/Ingest.antt =====
-- What one call of `ingest` of Visualize/integration/projector/node_buffer.py does.
use smart_data_models.Prelude.{
  ℕ, ◌+◌, true, Option, none, some, ◌≡◌, refl, sym, ap, ◌∙◌, ◌==◌, [], Bool-cases, if-true,
  if-false, get-put, String, arith, eqb, if◌then◌else◌, inl, inr, Option-cases, length, get, put,
  sum_values-put_new, sum_values-put_old, is_some, ◌⊎◌, Dict, length-put_new, string_key,
}
use smart_data_models.Projector.Event.{EntityEvent, BufferedEvent, NodeKey, node_key_eq}
use smart_data_models.Projector.NodeBuffer.{
  NodeBuffer, add, is_complete, NodeBufferManager, buffered_events, buffered_event_count, ready,
  buffered, quarantine, new_buffer, key_of_event, found_or_new, ingest, settle, repause,
}
use smart_data_models.Projector.NodeBuffer.Validity.{
  IsValid, Accepts, with_event, add-cases, buffer_for, ingest-settled, nodes-settle,
}

events-found_or_new :
    (nodes : Dict NodeKey NodeBuffer) (ev : EntityEvent) (count clock : ℕ) (b' : NodeBuffer)
    (o : Option NodeBuffer)
    → get nodes (key_of_event ev) ≡ o
    → buffered_events (put nodes (key_of_event ev) b')
        + length (found_or_new o ev count clock).events
      ≡ buffered_events nodes + length b'.events
unfolding buffered_events new_buffer
events-found_or_new nodes ev count clock b' none e =
    omega
      (arith, sum_values-put_new (λ (b : NodeBuffer). length b.events) nodes (key_of_event ev) b' e)
events-found_or_new nodes ev count clock b' (some b) e =
    sum_values-put_old (λ (c : NodeBuffer). length c.events) nodes (key_of_event ev) b' b e

-- The events that are buffered under a key, by their entities.
abbrev pub entries_of : Option NodeBuffer → Dict String BufferedEvent
entries_of none = []
entries_of (some b) = b.events

abbrev pub events_at : Dict NodeKey NodeBuffer → NodeKey → Dict String BufferedEvent
events_at nodes k = entries_of (get nodes k)

entries_of-found_or_new :
    (o : Option NodeBuffer) (ev : EntityEvent) (count clock : ℕ)
    → (found_or_new o ev count clock).events ≡ entries_of o
unfolding new_buffer
entries_of-found_or_new none ev count clock = refl
entries_of-found_or_new (some b) ev count clock = refl

events_at-put :
    (nodes : Dict NodeKey NodeBuffer) (key k : NodeKey) (b : NodeBuffer)
    → events_at (put nodes key b) k ≡ (if key == k then b.events else events_at nodes k)
events_at-put nodes key k b = elim (Bool-cases (key == k)) [
  | inl here ↦ ap entries_of (get-put nodes key b k ∙ if-true _ _ here) ∙ sym (if-true _ _ here)
  | inr away ↦ ap entries_of (get-put nodes key b k ∙ if-false _ _ away) ∙ sym (if-false _ _ away)
]

module _ (m : NodeBufferManager) (be : BufferedEvent) (clock count : ℕ) where
  -- The event was stored, and nothing else changed in the buffers; the answer says whether it was the last
  -- one of its node.
  abbrev pub IsStored : Type 0
  IsStored =
      let b = buffer_for m be.event count clock in
      ((ingest m be clock).1 ≡ (
        if eqb (length b.events + 1) count
        then ready (with_event b be)
        else buffered (with_event b be)))
      × ((k : NodeKey)
          → events_at (ingest m be clock).0.nodes k ≡ (
              if key_of_event be.event == k
              then put (events_at m.nodes (key_of_event be.event)) be.event.entity_id be
              else events_at m.nodes k))
      × (buffered_event_count (ingest m be clock).0 ≡ buffered_event_count m + 1)
      × ((ingest m be clock).0.quarantine_count ≡ m.quarantine_count)

  -- The event was put aside, and every event that was buffered is as it was.
  abbrev pub IsRefused : Type 0
  IsRefused =
      ((ingest m be clock).1 ≡ quarantine)
      × ((k : NodeKey) → events_at (ingest m be clock).0.nodes k ≡ events_at m.nodes k)
      × (buffered_event_count (ingest m be clock).0 ≡ buffered_event_count m)
      × ((ingest m be clock).0.quarantine_count ≡ m.quarantine_count + 1)

  events-ingest :
      be.event.node_entity_count ≡ some count
      → buffered_event_count (ingest m be clock).0
          + length (buffer_for m be.event count clock).events
        ≡ buffered_event_count m + length (add (buffer_for m be.event count clock) be).0.events
  unfolding buffered_event_count
  events-ingest e =
      let (b', r) = add (buffer_for m be.event count clock) be in
      rw
        (
          ingest-settled m be clock count e,
          nodes-settle (record m { nodes = put m.nodes (key_of_event be.event) b' }) b' r,
        )
        (events-found_or_new m.nodes be.event count clock
          (add (buffer_for m be.event count clock) be).0 (get m.nodes (key_of_event be.event)) refl)

  -- The buffers after the call, given what the event's buffer is then.
  events_at-ingest :
      (k : NodeKey) (b' : NodeBuffer)
      → be.event.node_entity_count ≡ some count
      → (add (buffer_for m be.event count clock) be).0 ≡ b'
      → events_at (ingest m be clock).0.nodes k
        ≡ (if key_of_event be.event == k then b'.events else events_at m.nodes k)
  events_at-ingest k b' e same =
      let (b, r) = add (buffer_for m be.event count clock) be in
      rw
        (
          ingest-settled m be clock count e,
          nodes-settle (record m { nodes = put m.nodes (key_of_event be.event) b }) b r,
        )
        (events_at-put m.nodes (key_of_event be.event) k b
          ∙ ap
              (λ (c : NodeBuffer).
                if key_of_event be.event == k then c.events else events_at m.nodes k)
              same)

  buffer_for-events :
      (buffer_for m be.event count clock).events ≡ events_at m.nodes (key_of_event be.event)
  buffer_for-events =
      entries_of-found_or_new (get m.nodes (key_of_event be.event)) be.event count clock

  same_events :
      (k : NodeKey)
      → (if key_of_event be.event == k
          then (buffer_for m be.event count clock).events
          else events_at m.nodes k)
        ≡ events_at m.nodes k
  same_events k = elim (Bool-cases (key_of_event be.event == k)) [
    | inl here ↦
        if-true _ _ here
        ∙ (buffer_for-events
            ∙ ap (events_at m.nodes) ((node_key_eq.same_iff (key_of_event be.event) k).0 here))
    | inr away ↦ if-false _ _ away
  ]

  stored-IsStored :
      Accepts (buffer_for m be.event count clock) be
      → be.event.node_entity_count ≡ some count
      → (add (buffer_for m be.event count clock) be).0
        ≡ with_event (buffer_for m be.event count clock) be
      → (add (buffer_for m be.event count clock) be).1 ≡ none
      → IsStored
  stored-IsStored ok e kept accepted =
      let b = buffer_for m be.event count clock in
      let longer = length-put_new b.events be.event.entity_id be (ok.2) in
      (
        rw (ingest-settled m be clock count e, accepted, kept)
            (unfold settle is_complete in (ground (arith, longer, ok.0, e, ok.3))),
        λ k.
            events_at-ingest k (with_event b be) e kept
            ∙ ap
                (λ (d : Dict String BufferedEvent).
                  if key_of_event be.event == k
                  then put d be.event.entity_id be
                  else events_at m.nodes k)
                buffer_for-events,
        omega (arith, events-ingest e, ap (λ (c : NodeBuffer). length c.events) kept, longer),
        rw (ingest-settled m be clock count e, accepted) (unfold settle repause in refl),
      )

  refused-IsRefused :
      be.event.node_entity_count ≡ some count
      → (add (buffer_for m be.event count clock) be).0 ≡ buffer_for m be.event count clock
      → is_some (add (buffer_for m be.event count clock) be).1 ≡ true
      → IsRefused
  refused-IsRefused e same refused =
      let kept = ap (λ (c : NodeBuffer). length c.events) same in
      elim (Option-cases (add (buffer_for m be.event count clock) be).1) [
        | inl gone ↦ absurd (cc (gone, refused))
        | inr (r, why) ↦ (
          rw (ingest-settled m be clock count e, why) (unfold settle in refl),
          λ k. events_at-ingest k (buffer_for m be.event count clock) e same ∙ same_events k,
          omega (arith, events-ingest e, kept),
          rw (ingest-settled m be clock count e, why) (unfold settle in refl),
        )
      ]

  pub ingest-cases :
      IsValid m
      → be.event.node_entity_count ≡ some count
      → (Accepts (buffer_for m be.event count clock) be × IsStored)
        ⊎ ((¬ Accepts (buffer_for m be.event count clock) be) × IsRefused)
  ingest-cases v e = elim (add-cases (buffer_for m be.event count clock) be) [
    | inl (ok, kept, accepted) ↦ inl (ok, stored-IsStored ok e kept accepted)
    | inr (bad, same, refused) ↦ inr (bad, refused-IsRefused e same refused)
  ]
