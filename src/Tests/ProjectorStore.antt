-- ===== src/Tests/ProjectorStore.antt =====
-- Tests of Projector/Store: a row that the retention would delete, a run that another replaces, and a
-- runtime state that a restart reconciles.
use smart_data_models.Prelude.{
  ℕ, String, none, some, List, [], ◌∷◌, ◌≡◌, refl, inr, arith, string_key, get, TopicPartition,
  topic_partition_key,
}
use smart_data_models.Projector.Tables.{
  applied, LedgerRow, text_pair_key, EntityState, RuntimeState, ProjectorStore, init,
}
use smart_data_models.Projector.Store.Cleanup.{
  cleanup, get-cleanup, Activation, activate_all, cleanup-activate_all,
}
use smart_data_models.Projector.Store.Recovery.{
  rebuild_completed_offsets, reconcile_runtime_state_from_entities,
}
use smart_data_models.Projector.Store.Recovery.Rewind.{
  IsNotRewound, reconcile_runtime_state_from_entities-IsNotRewound,
}

abbrev place : TopicPartition
place = ("traffic", 0)

abbrev row : String → ℕ → LedgerRow
row id offset = record {
  event_id = id;
  place = place;
  offset = offset;
  simulation_run_id = "run";
  cycle_sequence = offset;
  entity_id = "lamp";
  replacement_event_id = none;
  status = applied;
  payload_hash = "h";
  created_at = 1;
  completed_at = some 2;
}

abbrev lamp : EntityState
lamp = record {
  last_cycle_sequence = 6;
  last_event_id = "f";
  last_payload_hash = "h";
  last_applied_at = 2;
  last_simulation_time = some 3000;
}

-- Rows at 4, 5 and 7, and a commit at 4.
abbrev store : ProjectorStore
store = record init {
  ledger = ("g", row "g" 7) ∷ ("d", row "d" 4) ∷ ("e", row "e" 5) ∷ [];
  entities = (("run", "lamp"), lamp) ∷ [];
  commits = (place, 4) ∷ [];
}

rebuilt : rebuild_completed_offsets store place (some 4) ≡ some 5
unfolding init rebuild_completed_offsets topic_partition_key
rebuilt = refl

swept : (cleanup store 100 10 10).0.ledger ≡ ("g", row "g" 7) ∷ ("e", row "e" 5) ∷ []
unfolding init cleanup topic_partition_key
swept = refl

get-cleanup_example : get (cleanup store 100 10 10).0.ledger "g" ≡ some (row "g" 7)
unfolding init get topic_partition_key
get-cleanup_example =
    get-cleanup store 100 10 10 "g" (row "g" 7) refl (inr (inr (4, refl, omega arith)))

abbrev start : String → Activation
start run = record { key = ("sumo", "traci"); session = "s"; run = run; now = 1; error = none }

abbrev two_runs : List Activation
two_runs = start "run" ∷ start "next" ∷ []

cleanup-activate_all_example :
    (cleanup
      (activate_all (record init { entities = store.entities }) two_runs)
      100
      10
      10).0.entities
    ≡ (activate_all (record init { entities = store.entities }) two_runs).entities
cleanup-activate_all_example = cleanup-activate_all store.entities two_runs 100 10 10

abbrev current : RuntimeState
current = record {
  simulation_run_id = some "run";
  scenario_id = none;
  simulation_time = 1000;
  status = "ACTIVE";
  last_applied_cycle = 2;
  freshness = none;
}

abbrev stale_store : ProjectorStore
stale_store = record store { runtime = some current }

caught_up :
    (reconcile_runtime_state_from_entities stale_store "run").runtime
    ≡ some (record current { simulation_time = 3000; last_applied_cycle = 6 })
unfolding init reconcile_runtime_state_from_entities
caught_up = refl

reconcile_runtime_state_from_entities-IsNotRewound_example :
    (next : RuntimeState) × ((reconcile_runtime_state_from_entities stale_store "run").runtime
      ≡ some next)
    × IsNotRewound current next
reconcile_runtime_state_from_entities-IsNotRewound_example =
    reconcile_runtime_state_from_entities-IsNotRewound stale_store "run" current refl
