-- ===== src/Tests/NodeBuffer.antt =====
-- Tests of Projector/NodeBuffer: a node of two entities that completes, and one that times out.
use smart_data_models.Prelude.{ℕ, ◌≡◌, ◌⊎◌, refl, none, some, ◌+◌, length, get, put, String}
use smart_data_models.Projector.Event.{EntityEvent, BufferedEvent, node_key_eq}
use smart_data_models.Projector.NodeBuffer.{
  NodeBufferManager, init, ingest, take_complete, flush_timed_out, take_complete_cycles,
}
use smart_data_models.Projector.NodeBuffer.Validity.{IsValid, ingest-IsValid, Accepts, buffer_for}
use smart_data_models.Projector.NodeBuffer.Ingest.{IsStored, IsRefused, ingest-cases}
use smart_data_models.Projector.NodeBuffer.Flush.{
  IsFull, IsOverdue, IsSplit, take_complete-IsSplit, flush_timed_out-IsSplit,
}

abbrev event : String → String → EntityEvent
event id entity = record {
  event_id = id;
  simulation_run_id = "run";
  cycle_sequence = 7;
  node_id = "n1";
  node_entity_count = some 2;
  cycle_entity_count = some 2;
  entity_id = entity;
  payload_hash = "h";
  simulation_time = 1000;
  producer_id = none;
  scenario_id = none;
}

abbrev at_offset : ℕ → EntityEvent → BufferedEvent
at_offset o ev = record {
  event = ev;
  topic = "traffic";
  partition = 0;
  offset = o;
  received_at = 5;
}

abbrev first : BufferedEvent
first = at_offset 0 (event "a" "lamp")

abbrev second : BufferedEvent
second = at_offset 1 (event "b" "camera")

abbrev empty : NodeBufferManager
empty = init 100 2000 32

empty-IsValid : IsValid empty
unfolding init
empty-IsValid = record { keys = tt; buffers = tt }

abbrev one : NodeBufferManager
one = (ingest empty first 10).0

abbrev two : NodeBufferManager
two = (ingest one second 11).0

one-IsValid : IsValid one
one-IsValid = ingest-IsValid empty first 10 empty-IsValid

ingest-IsValid_example : IsValid two
ingest-IsValid_example = ingest-IsValid one second 11 one-IsValid

ingest-cases_example :
    (Accepts (buffer_for one second.event 2 11) second × IsStored one second 11 2)
    ⊎ ((¬ Accepts (buffer_for one second.event 2 11) second) × IsRefused one second 11 2)
ingest-cases_example = ingest-cases one second 11 2 one-IsValid refl

take_complete-IsSplit_example :
    IsSplit IsFull one.nodes (take_complete one).0.nodes (take_complete one).1
    × IsValid (take_complete one).0
take_complete-IsSplit_example = take_complete-IsSplit one one-IsValid

flush_timed_out-IsSplit_example :
    IsSplit
      (IsOverdue one.timeout_ms 200)
      one.nodes
      (flush_timed_out one 200).0.nodes
      (flush_timed_out one 200).1
    × IsValid (flush_timed_out one 200).0
    × ((flush_timed_out one 200).0.node_partial_count
        ≡ one.node_partial_count + length (flush_timed_out one 200).1)
flush_timed_out-IsSplit_example = flush_timed_out-IsSplit one 200 one-IsValid

pair_taken :
    (length (take_complete two).1 ≡ 1)
    × (length (take_complete_cycles two).1 ≡ 1)
    × (length (flush_timed_out one 200).1 ≡ 1)
    × (length (flush_timed_out one 50).1 ≡ 0)
unfolding take_complete take_complete_cycles flush_timed_out ingest init get put node_key_eq
pair_taken = (refl, refl, refl, refl)
