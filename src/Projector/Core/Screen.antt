-- ===== src/Projector/Core/Screen.antt =====
-- Visualize/integration/projector/core.py: the first steps of `_apply_node_buffer`, which
-- choose the events of a buffer that go to Orion.
use smart_data_models.Prelude.{
  ℕ, ◌+◌, String, Bool, true, false, ◌||◌, Option, none, some, List, [], ◌∷◌, ◌++◌, map, ltb, leb,
  if◌then◌else◌, string_key, ◌==◌, Dict, get, put, TopicPartition, topic_partition_key,
}
use smart_data_models.Projector.Event.{BufferedEvent}
use smart_data_models.Projector.Tables.{
  Status, sim_time_regression, is_applied, LedgerRow, TextPair, text_pair_key, EntityState,
}
use smart_data_models.Projector.Store.{time_or_zero}
use smart_data_models.Projector.NodeBuffer.{NodeBuffer, key_of, pop_ready}
use smart_data_models.Projector.Core.State.{
  ProjectorMode, normal, catch_up, Core, Call, pure, raise, update, ◌>>=◌, ◌>>◌, for_each,
  apply_batch, place_of,
}
use smart_data_models.Projector.Core.Marks.{maybe_commit, mark_done}

unfoldable pub events_of : NodeBuffer → List BufferedEvent
events_of b = map (λ p. p.1) b.events

unfoldable pub mark_all : List BufferedEvent → Core → Core
mark_all [] c = c
mark_all (be ∷ bes) c = mark_all bes (mark_done (place_of be) be.offset c)

-- What the ledger says of an event.
pub data Screening : Type 0 where
  fresh known mismatch : Screening

unfoldable pub screening : Option LedgerRow → BufferedEvent → Screening
screening none be = fresh
screening (some r) be =
    if r.payload_hash == be.event.payload_hash
    then (if is_applied r.status then known else fresh)
    else mismatch

-- An event without an id is in no ledger.
unfoldable pub ledger_row : Dict String LedgerRow → BufferedEvent → Option LedgerRow
ledger_row ledger be = if be.event.event_id == "" then none else get ledger be.event.event_id

unfoldable pub screen_as : Screening → BufferedEvent → Call (List BufferedEvent)
screen_as fresh be = pure (be ∷ [])
screen_as known be = update (λ v c. mark_done (place_of be) be.offset c) >> pure []
screen_as mismatch be =
    update (λ v c. record c { is_faulted = true; fault_message = some "payload_hash mismatch" })
    >> raise "payload_hash mismatch"

-- The events that are not applied yet. One with another payload than the ledger's is a fault.
unfoldable pub screen_all : Dict String LedgerRow → List BufferedEvent → Call (List BufferedEvent)
screen_all ledger [] = pure []
screen_all ledger (be ∷ bes) = do
  first ← screen_as (screening (ledger_row ledger be) be) be
  rest ← screen_all ledger bes
  pure (first ++ rest)

-- An earlier cycle, or a time that is more than a nanosecond before the entity's.
unfoldable pub is_behind : Option EntityState → BufferedEvent → Bool
is_behind none be = false
is_behind (some e) be =
    ltb be.event.cycle_sequence e.last_cycle_sequence
    || ltb (be.event.simulation_time + 1) (time_or_zero e.last_simulation_time)

-- An entity without an id has no state.
unfoldable pub state_of : Dict TextPair EntityState → String → String → Option EntityState
state_of entities run id = if id == "" then none else get entities (run, id)

unfoldable pub is_regression : Dict TextPair EntityState → NodeBuffer → BufferedEvent → Bool
is_regression entities b be =
    is_behind (state_of entities b.simulation_run_id be.event.entity_id) be

unfoldable pub row_in : NodeBuffer → ℕ → Status → ℕ → BufferedEvent → LedgerRow
row_in b cycle status now be = record {
  event_id = be.event.event_id;
  place = place_of be;
  offset = be.offset;
  simulation_run_id = b.simulation_run_id;
  cycle_sequence = cycle;
  entity_id = be.event.entity_id;
  replacement_event_id = none;
  status = status;
  payload_hash = be.event.payload_hash;
  created_at = now;
  completed_at = some now;
}

unfoldable pub drop_regressed : NodeBuffer → List BufferedEvent → Call Unit
drop_regressed b [] = pure tt
drop_regressed b (be ∷ bes) =
    update (λ v c. mark_all (be ∷ bes) c)
    >> apply_batch
        (λ now. map (λ x. row_in b x.event.cycle_sequence sim_time_regression now x) (be ∷ bes))
        (λ _. [])

-- The partitions of the events, each once. The source goes through them in no stated order.
unfoldable pub places :
    List BufferedEvent → Dict TopicPartition (Unit {0}) → Dict TopicPartition (Unit {0})
places [] acc = acc
places (be ∷ bes) acc = places bes (put acc (place_of be) tt)

unfoldable pub commit_places : List BufferedEvent → Call Unit
commit_places bes = for_each (λ p. maybe_commit p.0) (places bes [])

unfoldable pub pop_buffer : NodeBuffer → Call Unit
pop_buffer b = update (λ v c. record c { buffers = (pop_ready c.buffers (key_of b)).0 })

-- The latest event of each entity that is sent, in the place of the first.
unfoldable pub coalesced :
    Dict String BufferedEvent
    → String
    → BufferedEvent
    → Option BufferedEvent
    → Dict String BufferedEvent
coalesced d id be none = put d id be
coalesced d id be (some prev) =
    if leb prev.event.cycle_sequence be.event.cycle_sequence then put d id be else d

unfoldable pub coalesce :
    (String → String) → List BufferedEvent → Dict String BufferedEvent → Dict String BufferedEvent
coalesce sent_id [] d = d
coalesce sent_id (be ∷ bes) d =
    let id = sent_id be.event.entity_id in coalesce sent_id bes (coalesced d id be (get d id))

unfoldable pub to_send : ProjectorMode → (String → String) → List BufferedEvent → List BufferedEvent
to_send normal sent_id bes = bes
to_send catch_up sent_id bes = map (λ p. p.1) (coalesce sent_id bes [])
