-- ===== src/Projector/NodeBuffer/Validity.antt =====
-- What holds of the buffers of Visualize/integration/projector/node_buffer.py between two calls.
use smart_data_models.Prelude.{
  ℕ, ◌≤◌, ◌<◌, String, true, Option, none, some, ◌≡◌, refl, ap, ◌∙◌, arith, inl, inr, length,
  string_key, Dict, get, put, Distinct, put-Distinct, All, is_some, length-put_new, All-put,
  All-get, ◌⊎◌,
}
use text.Mathlib.TextEquality.{eq_iff}
use smart_data_models.Projector.Event.{EntityEvent, BufferedEvent, NodeKey, node_key_eq}
use smart_data_models.Projector.NodeBuffer.{
  NodeBuffer, key_of, add, add_counted, NodeBufferManager, Action, offer, new_buffer, key_of_event,
  found_or_new, ingest, ingest_counted, settle, repause, Reason,
}

-- The event `be`, stored under the entity id `eid`, belongs in the buffer `b`.
abbrev pub Belongs : NodeBuffer → String × BufferedEvent → Type 0
Belongs b (eid, be) =
    (eid ≡ be.event.entity_id)
    × (be.event.node_id ≡ b.node_id)
    × (be.event.node_entity_count ≡ some b.node_entity_count)

-- A buffer stands under its own key, holds at most the announced number of events, one for each
-- entity, and only events of its node.
pub record IsValidBuffer (key : NodeKey) (b : NodeBuffer) : Type 0 where
  pub at_key : key_of b ≡ key
  pub room : length b.events ≤ b.node_entity_count
  pub one_each : Distinct b.events
  pub own : All (Belongs b) b.events

abbrev pub AllValid : Dict NodeKey NodeBuffer → Type 0
AllValid nodes = All (λ (p : NodeKey × NodeBuffer). IsValidBuffer p.0 p.1) nodes

pub record IsValid (m : NodeBufferManager) : Type 0 where
  pub keys : Distinct m.nodes
  pub buffers : AllValid m.nodes

abbrev pub Accepts : NodeBuffer → BufferedEvent → Type 0
Accepts b be =
    (be.event.node_entity_count ≡ some b.node_entity_count)
    × (be.event.node_id ≡ b.node_id)
    × (get b.events be.event.entity_id ≡ none)
    × (length b.events < b.node_entity_count)

abbrev pub with_event : NodeBuffer → BufferedEvent → NodeBuffer
with_event b be = record b { events = put b.events be.event.entity_id be }

-- An event that the buffer accepts is stored, and any other is refused and leaves it as it was.
pub add-cases :
    (b : NodeBuffer) (be : BufferedEvent)
    → (Accepts b be × ((add b be).0 ≡ with_event b be) × ((add b be).1 ≡ none))
      ⊎ ((¬ Accepts b be) × ((add b be).0 ≡ b) × (is_some (add b be).1 ≡ true))
unfolding add add_counted
add-cases b be = ground (arith, eq_iff be.event.node_id b.node_id)

with_event-IsValidBuffer :
    (key : NodeKey) (b : NodeBuffer) (be : BufferedEvent)
    → Accepts b be
    → IsValidBuffer key b
    → IsValidBuffer key (with_event b be)
with_event-IsValidBuffer key b be (count, node, fresh, room) v = record {
  at_key = v.at_key;
  room = omega (arith, length-put_new b.events be.event.entity_id be fresh);
  one_each = put-Distinct b.events be.event.entity_id be v.one_each;
  own = All-put (Belongs b) b.events be.event.entity_id be v.own (refl, node, count);
}

add-IsValidBuffer :
    (key : NodeKey) (b : NodeBuffer) (be : BufferedEvent)
    → IsValidBuffer key b
    → IsValidBuffer key (add b be).0
add-IsValidBuffer key b be v = elim (add-cases b be) [
  | inl (ok, e, _) ↦ rw e (with_event-IsValidBuffer key b be ok v)
  | inr (_, e, _) ↦ rw e v
]

found_or_new-IsValidBuffer :
    (nodes : Dict NodeKey NodeBuffer) (ev : EntityEvent) (count clock : ℕ) (o : Option NodeBuffer)
    → AllValid nodes
    → get nodes (key_of_event ev) ≡ o
    → IsValidBuffer (key_of_event ev) (found_or_new o ev count clock)
unfolding new_buffer
found_or_new-IsValidBuffer nodes ev count clock none h e = record {
  at_key = refl;
  room = omega arith;
  one_each = tt;
  own = tt;
}
found_or_new-IsValidBuffer nodes ev count clock (some b) h e =
    All-get (λ (p : NodeKey × NodeBuffer). IsValidBuffer p.0 p.1) nodes (key_of_event ev) b h e

pub nodes-settle :
    (m : NodeBufferManager) (b : NodeBuffer) (refused : Option Reason)
    → (settle m b refused).0.nodes ≡ m.nodes
unfolding settle repause
nodes-settle m b none = refl
nodes-settle m b (some reason) = refl

-- The buffer of an event that announces `count` events: the one found, or a new one.
abbrev pub buffer_for : NodeBufferManager → EntityEvent → ℕ → ℕ → NodeBuffer
buffer_for m ev count clock = found_or_new (get m.nodes (key_of_event ev)) ev count clock

module _ (m : NodeBufferManager) (be : BufferedEvent) (clock count : ℕ) where
  -- `ingest` of an event that announces `count` events, as the update and the answer.
  abbrev pub settled : NodeBufferManager × Action
  settled =
      let (b', r) = add (buffer_for m be.event count clock) be in
      settle (record m { nodes = put m.nodes (key_of_event be.event) b' }) b' r

  ingest_counted-settled : ingest_counted m be clock (some count) ≡ settled
  unfolding ingest_counted
  ingest_counted-settled = unfold offer in refl

  pub ingest-settled : be.event.node_entity_count ≡ some count → ingest m be clock ≡ settled
  unfolding ingest
  ingest-settled e = ap (λ c. ingest_counted m be clock c) e ∙ ingest_counted-settled

put-IsValid :
    (m m' : NodeBufferManager) (key : NodeKey) (b : NodeBuffer)
    → IsValid m
    → IsValidBuffer key b
    → m'.nodes ≡ put m.nodes key b
    → IsValid m'
put-IsValid m m' key b v vb e = record {
  keys = rw e (put-Distinct m.nodes key b v.keys);
  buffers =
      rw e
        (All-put (λ (p : NodeKey × NodeBuffer). IsValidBuffer p.0 p.1) m.nodes key b v.buffers vb);
}

offered-IsValid :
    (m : NodeBufferManager) (be : BufferedEvent) (clock count : ℕ)
    → IsValid m
    → IsValid (ingest_counted m be clock (some count)).0
offered-IsValid m be clock count v =
    let key = key_of_event be.event in
    let b = buffer_for m be.event count clock in
    let (b', r) = add b be in
    rw (ingest_counted-settled m be clock count) (
      put-IsValid m (settled m be clock count).0 key b' v
        (add-IsValidBuffer key b be (
          found_or_new-IsValidBuffer m.nodes be.event count clock (get m.nodes key) v.buffers refl))
        (nodes-settle (record m { nodes = put m.nodes key b' }) b' r))

ingest_counted-IsValid :
    (m : NodeBufferManager) (be : BufferedEvent) (clock : ℕ) (c : Option ℕ)
    → IsValid m
    → IsValid (ingest_counted m be clock c).0
ingest_counted-IsValid m be clock none v =
    unfold ingest_counted in record { keys = v.keys; buffers = v.buffers }
ingest_counted-IsValid m be clock (some count) v = offered-IsValid m be clock count v

-- Every event, accepted or refused, keeps the buffers valid.
pub ingest-IsValid :
    (m : NodeBufferManager) (be : BufferedEvent) (clock : ℕ)
    → IsValid m
    → IsValid (ingest m be clock).0
unfolding ingest
ingest-IsValid m be clock v = ingest_counted-IsValid m be clock be.event.node_entity_count v
