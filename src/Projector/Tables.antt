-- ===== src/Projector/Tables.antt =====
-- The tables of Visualize/integration/projector/schema.py and the rows of store.py. A timestamp, a
-- text of fixed width in the source, is a number of microseconds; a simulation time is a whole number
-- of nanoseconds. A table with a primary key is a dictionary. The columns `updated_at` of the commits
-- and of the runtime state, which only people read, are left out.
use smart_data_models.Prelude.{
  ℕ, String, Bool, true, false, Option, none, List, [], Key, pair_key, string_key, TopicPartition,
  Dict,
}

pub data Status : Type 0 where
  applied coalesced_superseded stale_skipped fence_skipped sim_time_regression : Status
  invalid_json invalid_schema invalid_protocol dlq_failed quarantined : Status
  failed failed_permanent node_partial_applied pending : Status

-- `status in COMPLETED_STATUSES`
abbrev pub is_completed : Status → Bool
is_completed applied = true
is_completed coalesced_superseded = true
is_completed stale_skipped = true
is_completed fence_skipped = true
is_completed sim_time_regression = true
is_completed invalid_json = true
is_completed invalid_schema = true
is_completed invalid_protocol = true
is_completed dlq_failed = false
is_completed quarantined = true
is_completed failed = true
is_completed failed_permanent = true
is_completed node_partial_applied = true
is_completed pending = false

abbrev pub is_applied : Status → Bool
is_applied applied = true
is_applied _ = false

abbrev pub is_pending : Status → Bool
is_pending pending = true
is_pending _ = false

-- A row of `projector_event_ledger`; its primary key is the event's id.
pub record LedgerRow : Type 0 where
  pub event_id : String
  pub place : TopicPartition
  pub offset : ℕ
  pub simulation_run_id : String
  pub cycle_sequence : ℕ
  pub entity_id : String
  pub replacement_event_id : Option String
  pub status : Status
  pub payload_hash : String
  pub created_at : ℕ
  pub completed_at : Option ℕ

-- (simulation_run_id, entity_id), and (source, producer_id)
abbrev pub TextPair : Type 0
TextPair = String × String

instance unfoldable pub text_pair_key : Key TextPair
unfolding pair_key
text_pair_key = pair_key string_key string_key

pub record EntityState : Type 0 where
  pub last_cycle_sequence : ℕ
  pub last_event_id : String
  pub last_payload_hash : String
  pub last_applied_at : ℕ
  pub last_simulation_time : Option ℕ

pub record ActiveRun : Type 0 where
  pub producer_session_id : String
  pub simulation_run_id : String
  pub activated_at : ℕ
  pub is_active : Bool

pub record Gap : Type 0 where
  pub place : TopicPartition
  pub from_offset : ℕ
  pub to_offset : ℕ
  pub created_at : ℕ

-- The row `current` of `projector_runtime_state`. `status` is the runtime status.
pub record RuntimeState : Type 0 where
  pub simulation_run_id : Option String
  pub scenario_id : Option String
  pub simulation_time : ℕ
  pub status : String
  pub last_applied_cycle : ℕ
  pub freshness : Option ℕ

pub record ProjectorStore : Type 0 where
  pub ledger : Dict String LedgerRow
  pub entities : Dict TextPair EntityState
  pub runs : Dict TextPair ActiveRun
  pub commits : Dict TopicPartition ℕ
  pub gaps : List Gap
  pub runtime : Option RuntimeState

unfoldable pub init : ProjectorStore
init = record { ledger = []; entities = []; runs = []; commits = []; gaps = []; runtime = none }
