-- ===== src/Projector/Core/Apply.antt =====
-- Visualize/integration/projector/core.py: `_apply_node_buffer`, the write of a buffer to Orion.
use smart_data_models.Prelude.{
  ℕ, max, String, Bool, true, false, not, ◌&&◌, ◌||◌, Option, none, some, List, [], ◌∷◌, ◌++◌, map,
  eqb, if◌then◌else◌, string_key, ◌==◌, keep, topic_partition_key,
}
use smart_data_models.Projector.Event.{BufferedEvent}
use smart_data_models.Projector.Tables.{
  Status, applied, node_partial_applied, failed_permanent, LedgerRow, text_pair_key, RuntimeState,
  ProjectorStore,
}
use smart_data_models.Projector.Store.{EntityUpdate, set_runtime_state}
use smart_data_models.Projector.NodeBuffer.{NodeBuffer, pause}
use smart_data_models.Projector.Retry.{
  circuit_allows_attempt, start_or_continue, record_failure, record_success,
}
use smart_data_models.Projector.Core.Cache.{RuntimeCache, update_after_apply}
use smart_data_models.Projector.Core.State.{
  ProjectorMode, normal, catch_up, RuntimePhase, phase_active, phase_catch_up, phase_degraded, Core,
  BatchUpsertResult, Env, Call, pure, gets, update, modify, ◌>>=◌, ◌>>◌, write, apply_batch,
}
use smart_data_models.Projector.Core.Screen.{
  events_of, mark_all, screen_all, row_in, is_regression, drop_regressed, commit_places, pop_buffer,
  to_send,
}
use smart_data_models.Projector.Core.Marks.{can_commit_offsets}

unfoldable pub attempt_allowed : Call Bool
attempt_allowed = modify (λ v c.
    let (m, allowed) = circuit_allows_attempt c.retry_manager none v.clock_us in
    (allowed, record c { retry_manager = m }))

unfoldable pub degrade : Call Unit
degrade = update (λ v c. record c { runtime_phase = phase_degraded; buffers = pause c.buffers })

unfoldable pub is_in : List String → String → Bool
is_in [] id = false
is_in (x ∷ xs) id = x == id || is_in xs id

abbrev pub is_empty : List String → Bool
is_empty [] = true
is_empty (x ∷ xs) = false

-- The sets of `classify_batch_result`, as lists.
pub record Classified : Type 0 where
  pub success : List String
  pub retryable : List String
  pub permanent : List String
  pub transport_transient : Bool

abbrev pub is_created : Option ℕ → Bool
is_created none = false
is_created (some status) = eqb status 201 || eqb status 204

abbrev pub is_unanswered : Option ℕ → Bool
is_unanswered none = true
is_unanswered (some status) = false

unfoldable pub classify_batch_result : BatchUpsertResult → Classified
classify_batch_result r =
    if is_empty r.success_ids && is_created r.http_status
    then record {
      success = r.success_ids;
      retryable = r.retryable_error_ids;
      permanent = r.permanent_ids;
      transport_transient = false;
    }
    else record {
      success = r.success_ids;
      retryable = r.retryable_error_ids ++ r.ambiguous_ids;
      permanent = r.permanent_ids;
      transport_transient = is_unanswered r.http_status && not (is_empty r.ambiguous_ids);
    }

unfoldable pub is_transient : Classified → Bool
is_transient r = not (is_empty r.retryable) || r.transport_transient

unfoldable pub fail_attempt : List BufferedEvent → Call Unit
fail_attempt bes =
    update (λ v c. record c {
      retry_manager =
          (record_failure
            (start_or_continue c.retry_manager (map (λ be. v.sent_id be.event.entity_id) bes)) true
            "orion transient" none v.clock_us v.draw).0;
    })
    >> degrade

unfoldable pub is_sent : (String → String) → Classified → BufferedEvent → Bool
is_sent sent_id r be =
    is_in r.success (sent_id be.event.entity_id) || is_in r.success be.event.entity_id

abbrev pub success_status : Bool → Status
success_status partial = if partial then node_partial_applied else applied

unfoldable pub sent_row :
    NodeBuffer → Bool → (String → String) → Classified → ℕ → BufferedEvent → LedgerRow
sent_row b partial sent_id r now be =
    row_in b b.cycle_sequence
      (if is_sent sent_id r be then success_status partial else failed_permanent) now be

unfoldable pub entity_update : NodeBuffer → ℕ → BufferedEvent → EntityUpdate
entity_update b now be = (
  (b.simulation_run_id, be.event.entity_id),
  record {
    last_cycle_sequence = b.cycle_sequence;
    last_event_id = be.event.event_id;
    last_payload_hash = be.event.payload_hash;
    last_applied_at = now;
    last_simulation_time = some be.event.simulation_time;
  },
)

-- The scenario of the last event that has one, and the latest time.
unfoldable pub scenario_of : List BufferedEvent → Option String → Option String
scenario_of [] found = found
scenario_of (be ∷ bes) found =
    scenario_of bes
      (elim be.event.scenario_id [ none ↦ found | some id ↦ if id == "" then found else some id ])

unfoldable pub latest_time : List BufferedEvent → ℕ → ℕ
latest_time [] t = t
latest_time (be ∷ bes) t = latest_time bes (max t be.event.simulation_time)

unfoldable pub runtime_status : RuntimePhase → ProjectorMode → String
runtime_status phase_degraded mode = "DEGRADED"
runtime_status _ catch_up = "CATCH_UP"
runtime_status _ normal = "ACTIVE"

-- `metrics["pipeline_freshness_sec"]` is never set: the freshness is always missing.
unfoldable pub runtime_of : Core → NodeBuffer → List BufferedEvent → RuntimeState
runtime_of c b bes = record {
  simulation_run_id = some b.simulation_run_id;
  scenario_id = scenario_of bes none;
  simulation_time = latest_time bes 0;
  status = runtime_status c.runtime_phase c.mode;
  last_applied_cycle = b.cycle_sequence;
  freshness = none;
}

unfoldable pub set_runtime :
    ProjectorStore → RuntimeState → Option String → ProjectorStore × Option String
set_runtime s new none = ((set_runtime_state s new).0, none)
set_runtime s new (some e) = (s, some e)

abbrev pub phase_of : ProjectorMode → RuntimePhase
phase_of normal = phase_active
phase_of catch_up = phase_catch_up

abbrev pub cache_after : RuntimeCache → Option RuntimeState → RuntimeCache
cache_after cache none = cache
cache_after cache (some row) = update_after_apply cache row

unfoldable pub applied_whole : Env → Core → Core
applied_whole v c = record c {
  runtime_cache = cache_after c.runtime_cache c.store.runtime;
  runtime_phase = phase_of c.mode;
  buffers = record c.buffers { paused = false };
  partitions_paused = false;
}

unfoldable pub note_applied : NodeBuffer → List BufferedEvent → Call Unit
note_applied b bes = do
  new ← gets (λ v c. runtime_of c b bes)
  write (λ v s e. set_runtime s new e)
  update applied_whole

-- The offsets are marked before the rows are written.
unfoldable pub settle_batch :
    NodeBuffer → Bool → List BufferedEvent → (String → String) → Classified → Call Unit
settle_batch b partial bes sent_id r = do
  update (λ v c. mark_all bes c)
  apply_batch (λ now. map (sent_row b partial sent_id r now) bes)
      (λ now. map (entity_update b now) (keep (is_sent sent_id r) bes))
  pop_buffer b
  commit_places bes
  if partial then pure tt else note_applied b bes

unfoldable pub deliver : NodeBuffer → Bool → List BufferedEvent → Call Unit
deliver b partial bes = do
  sent_id ← gets (λ v c. v.sent_id)
  r ← gets (λ v c. classify_batch_result (v.batch_upsert bes))
  if is_transient r then fail_attempt bes else do
    update (λ v c. record c { retry_manager = record_success c.retry_manager })
    settle_batch b partial bes sent_id r

unfoldable pub send : NodeBuffer → Bool → List BufferedEvent → Call Unit
send b partial [] = do commit_places (events_of b); pop_buffer b
send b partial (be ∷ bes) = do
  chosen ← gets (λ v c. to_send c.mode v.sent_id (be ∷ bes))
  allowed ← attempt_allowed
  if allowed then deliver b partial chosen else degrade

unfoldable pub apply_active : NodeBuffer → Bool → Call Unit
apply_active b partial = do
  ledger ← gets (λ v c. c.store.ledger)
  unapplied ← screen_all ledger (events_of b)
  entities ← gets (λ v c. c.store.entities)
  drop_regressed b (keep (is_regression entities b) unapplied)
  send b partial (keep (λ be. not (is_regression entities b be)) unapplied)

unfoldable pub apply_node_buffer : NodeBuffer → Bool → Call Unit
apply_node_buffer b partial = do
  ready ← gets (λ v c. can_commit_offsets c)
  if ready then apply_active b partial else pure tt
