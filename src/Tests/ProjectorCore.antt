-- ===== src/Tests/ProjectorCore.antt =====
-- Tests of Projector/Core: a run that starts, a node of two entities that is applied, a restart, and a
-- batch that Orion refuses.
use smart_data_models.Prelude.{
  ℕ, ◌≤◌, ◌<◌, String, true, false, none, some, List, [], ◌∷◌, ◌≡◌, refl, inr, map, arith,
  string_key, get, TopicPartition, topic_partition_key,
}
use smart_data_models.Projector.Event.{EntityEvent, BufferedEvent}
use smart_data_models.Projector.Tables
use smart_data_models.Projector.Tables.{ProjectorStore}
use smart_data_models.Projector.Store.{
  get_committed_offset, apply_batch_tx, upsert_rows, upsert_row, insert_row, upsert_next,
  apply_rows, is_taken,
}
use smart_data_models.Projector.Store.Upserts.{IsOnward}
use smart_data_models.Projector.OffsetTracker.{contains, done_at}
use smart_data_models.Projector.NodeBuffer.{NodeBuffer}
use smart_data_models.Projector.Core.State.{
  Core, Env, pure, continue, update, write, apply_batch, answer_of, later_ends, ◌>>=◌, ◌>>◌,
  first_end, returned, raised, BatchUpsertResult, WriteMode, active, armed,
}
use smart_data_models.Projector.Core.Marks.{can_commit_offsets, maybe_commit}
use smart_data_models.Projector.Core.Apply.{deliver}
use smart_data_models.Projector.Core.Recovery.{init, recover_partition}
use smart_data_models.Projector.Core.Process.{message_of}
use smart_data_models.Projector.Core.RunStart.{RunStarted, run_started_value, entity_observed}
use smart_data_models.Projector.Core.Requests.{
  Request, process_request, tick_request, serve_all, serve_all-IsOnward, serve_all-IsHeld,
}
use smart_data_models.Projector.Core.Advances.{IsHeld}
use smart_data_models.Projector.Core.Commits.{
  maybe_commit-reaches, IsLoaded, recover_partition-IsLoaded,
}
use smart_data_models.Projector.Core.Refusal.{IsRefused, deliver-IsRefused}
use smart_data_models.Projector.Core.Poison.{
  not_json, entity_object, json_defect, RawRecord, classify_raw_record, disposition_poison,
  note_disposition, consume_verdict, consume,
}
use smart_data_models.Projector.Core.DeadLetters.{IsHalted, consume-IsHalted}

abbrev place : TopicPartition
place = ("traffic", 0)

abbrev event : String → String → EntityEvent
event id entity = record {
  event_id = id;
  simulation_run_id = "run";
  cycle_sequence = 7;
  node_id = "n1";
  node_entity_count = some 2;
  cycle_entity_count = some 2;
  entity_id = entity;
  payload_hash = "h";
  simulation_time = 1000;
  producer_id = none;
  scenario_id = none;
}

abbrev all_sent : List BufferedEvent → BatchUpsertResult
all_sent bes = record {
  http_status = some 204;
  success_ids = map (λ (be : BufferedEvent). be.event.entity_id) bes;
  retryable_error_ids = [];
  permanent_ids = [];
  ambiguous_ids = [];
}

-- The connection breaks, and no answer says what Orion has done.
abbrev in_doubt : List BufferedEvent → BatchUpsertResult
in_doubt bes = record {
  http_status = none;
  success_ids = [];
  retryable_error_ids = [];
  permanent_ids = [];
  ambiguous_ids = "lamp" ∷ [];
}

abbrev env : (List BufferedEvent → BatchUpsertResult) → Env
env client = record {
  now = 1000;
  clock_us = 1000;
  clock_ms = 1;
  draw = 0;
  sent_id = λ id. id;
  batch_upsert = client;
}

abbrev core : WriteMode → Core
core mode = init Tables.init "kafka-projector" mode none [] 100 100 2000 32 false

abbrev started : RunStarted
started = record {
  event_id = "s";
  producer_id = "visualize-traci";
  producer_session_id = "session";
  simulation_run_id = "run";
}

abbrev requests : List (Env × Request)
requests =
    (env all_sent, process_request (run_started_value started) place 0)
    ∷ (env all_sent, process_request (entity_observed (event "a" "lamp")) place 1)
    ∷ (env all_sent, process_request (entity_observed (event "b" "camera")) place 2)
    ∷ (env all_sent, tick_request true false)
    ∷ []

serve_all-IsOnward_example : IsOnward (core active).store (serve_all requests (core active)).store
serve_all-IsOnward_example = serve_all-IsOnward requests (core active)

serve_all-IsHeld_example : IsHeld (core armed) (serve_all requests (core armed))
unfolding init
serve_all-IsHeld_example =
    serve_all-IsHeld requests (core armed) (refl, (refl, (refl, (refl, tt))))
      (unfold can_commit_offsets in refl)

-- A commit at 4, and 5 and 6 complete.
abbrev marked : Core
marked = record (core active) {
  offsets = record { completed = (place, 6 ∷ 5 ∷ []) ∷ []; committed = (place, 4) ∷ [] };
}

both_done : (o : ℕ) → 4 < o → o ≤ 6 → contains (done_at marked.offsets.completed place) o ≡ true
unfolding contains init get topic_partition_key
both_done o low high = ground (arith, low, high)

maybe_commit-reaches_example :
    ((maybe_commit place (env all_sent) marked).0 ≡ returned tt)
    × ((m : ℕ) × (get_committed_offset (maybe_commit place (env all_sent) marked).1.store place
          ≡ some m)
        × (6 ≤ m))
unfolding init can_commit_offsets first_end get topic_partition_key
maybe_commit-reaches_example =
    maybe_commit-reaches place 4 6 (env all_sent) marked refl refl refl both_done

abbrev persisted : Core
persisted = record (core active) { store = record Tables.init { commits = (place, 4) ∷ [] } }

recover_partition-IsLoaded_example :
    (last : ℕ) × IsLoaded persisted.store.ledger place 4 last
      (recover_partition place (env all_sent) persisted)
unfolding init first_end get_committed_offset get topic_partition_key
recover_partition-IsLoaded_example =
    recover_partition-IsLoaded place 4 (env all_sent) persisted refl refl

abbrev held : List BufferedEvent
held =
    record {
      event = event "a" "lamp";
      topic = "traffic";
      partition = 0;
      offset = 1;
      received_at = 0;
    }
    ∷ []

abbrev buffer : NodeBuffer
buffer = record {
  simulation_run_id = "run";
  cycle_sequence = 7;
  node_id = "n1";
  node_entity_count = 1;
  events = [];
  first_seen_at = 0;
}

deliver-IsRefused_example :
    ((deliver buffer false held (env in_doubt) (core active)).0 ≡ returned tt)
    × IsRefused (core active) (deliver buffer false held (env in_doubt) (core active)).1
deliver-IsRefused_example =
    deliver-IsRefused buffer false held (env in_doubt) (core active)
      (inr (("lamp", [], refl), inr (λ status. cc status, λ status. cc status)))

-- A record whose bytes are not JSON.
abbrev broken : RawRecord
broken = record {
  decoded = not_json;
  place = place;
  offset = 3;
  poison_id = "poison:traffic:0:3";
  payload_hash = "x";
}

abbrev intact : RawRecord
intact = record {
  decoded = entity_object true (event "a" "lamp");
  place = place;
  offset = 4;
  poison_id = "poison:traffic:0:4";
  payload_hash = "y";
}

abbrev halted : Core
halted = (consume broken (some "timed out") (env all_sent) (core active)).1

consume-IsHalted_example :
    IsHalted (core active) halted
    × (consume intact none (env all_sent) halted
        ≡ (raised (message_of halted.fault_message), halted))
unfolding classify_raw_record consume consume_verdict disposition_poison note_disposition
    apply_batch write first_end answer_of later_ends continue pure ◌>>=◌ ◌>>◌ update apply_batch_tx
    upsert_rows upsert_row insert_row upsert_next apply_rows is_taken get init Tables.init
consume-IsHalted_example =
    consume-IsHalted broken json_defect "" "timed out" (env all_sent) (core active) intact
      (entity_observed (event "a" "lamp")) none (env all_sent) refl refl refl
