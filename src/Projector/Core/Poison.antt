-- ===== src/Projector/Core/Poison.antt =====
-- Visualize/integration/projector/poison.py, and the step of Visualize/tools/projector_live_consumer.py
-- that takes one record: one that cannot be processed goes to the topic of the dead letters. The decoding
-- of the bytes and the verdict of the event validator stand in the record's own type; the text of the
-- poison row's id, the hash of the bytes and the answer of the publisher are arguments.
use smart_data_models.Prelude.{
  ℕ, String, Bool, true, false, Option, none, some, [], ◌∷◌, if◌then◌else◌, TopicPartition,
}
use smart_data_models.Projector.Event.{EntityEvent}
use smart_data_models.Projector.Tables.{
  Status, invalid_json, invalid_schema, invalid_protocol, dlq_failed, LedgerRow,
}
use smart_data_models.Projector.Core.State.{
  phase_faulted, Call, pure, update, ◌>>=◌, ◌>>◌, apply_batch,
}
use smart_data_models.Projector.Core.Marks.{finish}
use smart_data_models.Projector.Core.Process.{Label, node_ready_deferred}
use smart_data_models.Projector.Core.RunStart.{
  RunStarted, Value, run_started_value, entity_observed, process_record,
}
use smart_data_models.Projector.Core.Tick.{tick}

-- What the bytes of a record hold. The Boolean says whether the event is valid: what the validator
-- answers, or whether the keys of a run-started event are there.
pub data Decoded : Type 0 where
  no_bytes not_text not_json not_object other_object : Decoded
  entity_object : Bool → EntityEvent → Decoded
  run_object : Bool → RunStarted → Decoded

pub data Defect : Type 0 where
  json_defect schema_defect protocol_defect : Defect

-- A record to process, or its defect, with the run that is named beside it.
pub data Verdict : Type 0 where
  sound : Value → Verdict
  poison : Defect → String → Verdict

unfoldable pub classify_raw_record : Decoded → Verdict
classify_raw_record no_bytes = poison protocol_defect ""
classify_raw_record not_text = poison json_defect ""
classify_raw_record not_json = poison json_defect ""
classify_raw_record not_object = poison protocol_defect ""
classify_raw_record other_object = poison protocol_defect ""
classify_raw_record (entity_object valid ev) =
    if valid then sound (entity_observed ev) else poison schema_defect ev.simulation_run_id
classify_raw_record (run_object valid r) =
    if valid then sound (run_started_value r) else poison schema_defect r.simulation_run_id

unfoldable pub terminal_status : Defect → Status
terminal_status json_defect = invalid_json
terminal_status schema_defect = invalid_schema
terminal_status protocol_defect = invalid_protocol

-- A record as Kafka gives it, with its row's id and the hash of its bytes.
pub record RawRecord : Type 0 where
  pub decoded : Decoded
  pub place : TopicPartition
  pub offset : ℕ
  pub poison_id : String
  pub payload_hash : String

unfoldable pub poison_row : RawRecord → String → Status → ℕ → LedgerRow
poison_row r run status now = record {
  event_id = r.poison_id;
  place = r.place;
  offset = r.offset;
  simulation_run_id = run;
  cycle_sequence = 0;
  entity_id = "";
  replacement_event_id = none;
  status = status;
  payload_hash = r.payload_hash;
  created_at = now;
  completed_at = some now;
}

pub data Disposition : Type 0 where
  poison_terminal poison_unpublished : Disposition

-- The error is that of the publisher.
unfoldable pub disposition_poison : RawRecord → Defect → String → Option String → Call Disposition
disposition_poison r defect run none = do
  apply_batch (λ now. poison_row r run (terminal_status defect) now ∷ []) (λ _. [])
  finish r.place r.offset
  pure poison_terminal
disposition_poison r defect run (some e) = do
  apply_batch (λ now. poison_row r run dlq_failed now ∷ []) (λ _. [])
  pure poison_unpublished

unfoldable pub note_disposition : Disposition → Call Unit
note_disposition poison_terminal = pure tt
note_disposition poison_unpublished =
    update (λ v c. record c { is_faulted = true; runtime_phase = phase_faulted })

abbrev pub is_deferred : Label → Bool
is_deferred node_ready_deferred = true
is_deferred _ = false

unfoldable pub consume_verdict : RawRecord → Option String → Verdict → Call Unit
consume_verdict r published (sound value) = do
  label ← process_record value r.place r.offset
  if is_deferred label then tick false true else pure tt
consume_verdict r published (poison defect run) = do
  disposition ← disposition_poison r defect run published
  note_disposition disposition

unfoldable pub consume : RawRecord → Option String → Call Unit
consume r published = consume_verdict r published (classify_raw_record r.decoded)
