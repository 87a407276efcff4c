-- ===== src/Projector/Core/RunStart.antt =====
-- Visualize/integration/projector/core.py: the start of a run, which lets in the events that were held
-- for it, and `process_record`.
use smart_data_models.Prelude.{
  ℕ, String, Bool, true, false, Option, none, some, [], ◌∷◌, if◌then◌else◌, string_key, put,
  TopicPartition,
}
use smart_data_models.Projector.Event.{EntityEvent, BufferedEvent}
use smart_data_models.Projector.Tables
use smart_data_models.Projector.Tables.{
  applied, is_completed, LedgerRow, TextPair, text_pair_key, ActiveRun,
}
use smart_data_models.Projector.Store.{activate_run, get_ledger}
use smart_data_models.Projector.Core.State.{
  phase_active, Core, Call, pure, gets, modify, update, ◌>>=◌, ◌>>◌, for_each, write, apply_batch,
}
use smart_data_models.Projector.Core.Marks.{is_armed, finish}
use smart_data_models.Projector.Core.Process.{
  Label, ignored, fence_skipped, run_started, run_started_duplicate, is_target, unless_stopped,
  process_entity,
}

-- A run-started event. The id that the source builds for an event that has none is taken as given.
pub record RunStarted : Type 0 where
  pub event_id : String
  pub producer_id : String
  pub producer_session_id : String
  pub simulation_run_id : String

-- The event types, with what is read of them.
pub data Value : Type 0 where
  run_started_value : RunStarted → Value
  entity_observed : EntityEvent → Value
  other_value : Value

-- An event that was held comes in again, as one that is received now.
unfoldable pub process_again : BufferedEvent → Call Unit
process_again be = do
  received_at ← gets (λ v c. v.clock_ms)
  _ ← unless_stopped (process_entity (record be { received_at = received_at }))
  pure tt

unfoldable pub drain_awaiting_run : Call Unit
drain_awaiting_run = do
  held ← modify (λ v c. (c.awaiting_run, record c { awaiting_run = [] }))
  for_each process_again held

unfoldable pub drain_armed_buffer : Call Unit
drain_armed_buffer = do
  held ← modify (λ v c. (c.armed_buffer, record c { armed_buffer = []; partitions_paused = false }))
  for_each process_again held

abbrev pub run_key : Core → RunStarted → TextPair
run_key c r = (c.source, r.producer_id)

unfoldable pub active_row : RunStarted → ℕ → ActiveRun
active_row r now = record {
  producer_session_id = r.producer_session_id;
  simulation_run_id = r.simulation_run_id;
  activated_at = now;
  is_active = true;
}

unfoldable pub run_row : RunStarted → TopicPartition → ℕ → ℕ → LedgerRow
run_row r place offset now = record {
  event_id = r.event_id;
  place = place;
  offset = offset;
  simulation_run_id = r.simulation_run_id;
  cycle_sequence = 0;
  entity_id = "";
  replacement_event_id = none;
  status = applied;
  payload_hash = r.event_id;
  created_at = now;
  completed_at = some now;
}

-- The mark of a run-started event of another run than the target.
unfoldable pub fence_run : RunStarted → TopicPartition → ℕ → Call Unit
fence_run r place offset =
    apply_batch (λ now. record (run_row r place offset now) { status = Tables.fence_skipped } ∷ [])
      (λ _. [])
    >> finish place offset

-- `if self._can_commit_offsets()`: the mark and the commit, both of which test it.
unfoldable pub begin_run : RunStarted → TopicPartition → ℕ → Call Label
begin_run r place offset = do
  key ← gets (λ v c. run_key c r)
  write (λ v s e. activate_run s key r.producer_session_id r.simulation_run_id v.now e)
  update (λ v c. record c { active_run_cache = put c.active_run_cache key (active_row r v.now) })
  apply_batch (λ now. run_row r place offset now ∷ []) (λ _. [])
  update (λ v c. record c { runtime_phase = phase_active })
  drain_awaiting_run
  is_held ← gets (λ v c. is_armed c.write_mode)
  if is_held then drain_armed_buffer else pure tt
  finish place offset
  pure run_started

abbrev pub is_done : Option LedgerRow → Bool
is_done none = false
is_done (some row) = is_completed row.status

unfoldable pub admit_run : RunStarted → TopicPartition → ℕ → Call Label
admit_run r place offset = do
  is_known ← gets (λ v c. is_done (get_ledger c.store r.event_id))
  if is_known
      then (do finish place offset; pure run_started_duplicate)
      else begin_run r place offset

unfoldable pub handle_run_started : RunStarted → TopicPartition → ℕ → Call Label
handle_run_started r place offset = do
  is_ours ← gets (λ v c. is_target c.target_simulation_run_id r.simulation_run_id)
  if is_ours then admit_run r place offset else do fence_run r place offset; pure fence_skipped

unfoldable pub buffered_now : EntityEvent → TopicPartition → ℕ → ℕ → BufferedEvent
buffered_now ev place offset clock = record {
  event = ev;
  topic = place.0;
  partition = place.1;
  offset = offset;
  received_at = clock;
}

unfoldable pub process_value : Value → TopicPartition → ℕ → Call Label
process_value (run_started_value r) place offset = handle_run_started r place offset
process_value (entity_observed ev) place offset = do
  clock ← gets (λ v c. v.clock_ms)
  process_entity (buffered_now ev place offset clock)
process_value other_value place offset = pure ignored

unfoldable pub process_record : Value → TopicPartition → ℕ → Call Label
process_record value place offset = unless_stopped (process_value value place offset)
