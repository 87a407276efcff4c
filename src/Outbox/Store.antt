-- ===== src/Outbox/Store.antt =====
-- Visualize/integration/kafka/outbox_store.py: `KafkaOutboxStore`. The clock's reading, the free
-- bytes of the disk and the errors of SQLite are arguments. What a process keeps only for metrics
-- (the append durations) is left out.
pub mod Append
pub mod Answers
use smart_data_models.Prelude.{
  ℕ, zero, suc, ◌+◌, String, ℤ, pos, minus_one, Bool, true, false, not, ◌&&◌, ◌||◌, Option, none,
  some, List, [], ◌∷◌, ◌++◌, map, leb, ltb, eqb, if◌then◌else◌, string_key, ◌==◌, keep, count_by,
  take, length, is_some, clip,
}
use smart_data_models.Outbox.Table.{
  EventKind, entity, run_started, Status, outboxed, queued, acked, failed_retryable,
  failed_permanent, is_status, OutboxRecord, Table, has_id, find, exists_id, insert_all, update,
  update_each, order_by_sequence,
}

pub record OutboxRow : Type 0 where
  pub event_id : String
  pub simulation_run_id : String
  pub cycle_sequence : ℕ
  pub entity_sequence : ℕ
  pub event_key : String
  pub topic : String
  pub payload_json : String
  pub payload_hash : String
  pub event_kind : EventKind

pub record OutboxStore : Type 0 where
  pub rows : Table
  pub next_sequence : ℕ
  pub disk_warn_free_bytes : ℕ
  pub disk_fault_free_bytes : ℕ
  pub faulted : Bool
  pub fault_message : Option String
  pub degraded : Bool

-- What the machine does in one call: the free bytes, and the error of BEGIN or of COMMIT, if any.
pub record Machine : Type 0 where
  pub now : ℕ
  pub free_bytes : ℕ
  pub begin_error : Option String
  pub commit_error : Option String

pub data Outcome : Type 0 where
  appended : Outcome
  append_error : String → Outcome
  duplicate_error : Outcome

unfoldable pub check_disk : OutboxStore → ℕ → OutboxStore
check_disk s free =
    if ltb free s.disk_fault_free_bytes
    then record s {
      faulted = true;
      fault_message = some "disk free bytes below fault threshold";
      degraded = true;
    }
    else if ltb free s.disk_warn_free_bytes
    then record s { degraded = true }
    else s

abbrev pub message_or : Option String → String → String
message_or none default = default
message_or (some m) default = m

unfoldable pub record_of : ℕ → ℕ → OutboxRow → OutboxRecord
record_of now sequence r = record {
  event_id = r.event_id;
  simulation_run_id = r.simulation_run_id;
  cycle_sequence = pos r.cycle_sequence;
  entity_sequence = pos r.entity_sequence;
  event_key = r.event_key;
  topic = r.topic;
  payload_json = r.payload_json;
  payload_hash = r.payload_hash;
  event_kind = r.event_kind;
  outbox_sequence = sequence;
  status = outboxed;
  attempt_count = 0;
  next_retry_at = none;
  last_error = none;
  kafka_partition = none;
  kafka_offset = none;
  created_at = now;
  queued_at = none;
  acked_at = none;
  updated_at = now;
}

-- The parameters of the INSERT: `seq_start + i` for the i-th row.
unfoldable pub records_of : ℕ → ℕ → List OutboxRow → List OutboxRecord
unfolding record_of
records_of now start [] = []
records_of now start (r ∷ rs) = record_of now start r ∷ records_of now (start + 1) rs

unfoldable pub faulted_with : OutboxStore → String → OutboxStore
faulted_with s message = record s { faulted = true; fault_message = some message }

-- COMMIT, and then BEGIN and the INSERTs: the table is written only where all succeed.
unfoldable pub commit_rows : OutboxStore → Table → Option String → OutboxStore × Outcome
unfolding faulted_with
commit_rows s rows none = (record s { rows = rows }, appended)
commit_rows s rows (some e) = (faulted_with s e, append_error e)

unfoldable pub commit_insert : OutboxStore → Option String → Option Table → OutboxStore × Outcome
unfolding commit_rows
commit_insert s error none = (s, duplicate_error)
commit_insert s error (some rows) = commit_rows s rows error

unfoldable pub run_insert :
    OutboxStore → Option String → Option String → List OutboxRecord → OutboxStore × Outcome
unfolding insert_all commit_insert faulted_with
run_insert s none commit_error records = commit_insert s commit_error (insert_all s.rows records)
run_insert s (some e) commit_error records = (faulted_with s e, append_error e)

-- The guard that both appends share: a faulted store, and then a full disk, refuse.
unfoldable pub guarded :
    OutboxStore → ℕ → (OutboxStore → OutboxStore × Outcome) → OutboxStore × Outcome
guarded s free body =
    let s' = check_disk s free in
    if s.faulted
    then (s, append_error (message_or s.fault_message "outbox faulted"))
    else if s'.faulted
    then (s', append_error (message_or s'.fault_message "disk full"))
    else body s'

-- The reserved sequence numbers stay used where the transaction fails.
unfoldable pub append_cycle : OutboxStore → Machine → List OutboxRow → OutboxStore × Outcome
append_cycle s m [] = (s, append_error "empty cycle")
append_cycle s m (r ∷ rs) = guarded s m.free_bytes (λ s'.
    run_insert (record s' { next_sequence = s'.next_sequence + length (r ∷ rs) }) m.begin_error
      m.commit_error (records_of m.now s'.next_sequence (r ∷ rs)))

unfoldable pub run_started_record : ℕ → ℕ → OutboxRow → OutboxRecord
unfolding record_of
run_started_record now sequence r =
    let base = record_of now sequence r in
    record base {
      cycle_sequence = minus_one;
      entity_sequence = minus_one;
      event_kind = run_started;
    }

abbrev pub is_run_started : EventKind → Bool
is_run_started run_started = true
is_run_started entity = false

-- The row that stands under the sentinel's id is the same sentinel.
unfoldable pub same_sentinel : OutboxRow → Option OutboxRecord → Bool
same_sentinel r none = false
same_sentinel r (some existing) =
    is_run_started existing.event_kind
    && existing.simulation_run_id == r.simulation_run_id
    && existing.payload_hash == r.payload_hash
    && existing.topic == r.topic
    && existing.event_key == r.event_key

unfoldable pub retried_sentinel : OutboxRow → OutboxStore × Outcome → OutboxStore × Outcome
unfolding find same_sentinel
retried_sentinel r (s, duplicate_error) =
    (s, if same_sentinel r (find r.event_id s.rows) then appended else duplicate_error)
retried_sentinel r (s, other) = (s, other)

-- The cycle and entity sequences of the row given are not read.
unfoldable pub append_run_started : OutboxStore → Machine → OutboxRow → OutboxStore × Outcome
append_run_started s m r = guarded s m.free_bytes (λ s'. retried_sentinel r (
    run_insert (record s' { next_sequence = s'.next_sequence + 1 }) m.begin_error m.commit_error
      (run_started_record m.now s'.next_sequence r ∷ [])))

unfoldable pub any_acked_start : String → Table → Bool
any_acked_start run [] = false
any_acked_start run (r ∷ rows) =
    (r.simulation_run_id == run && is_run_started r.event_kind && is_status acked r.status)
    || any_acked_start run rows

unfoldable pub is_run_started_acked : OutboxStore → String → Bool
unfolding any_acked_start
is_run_started_acked s run = any_acked_start run s.rows
