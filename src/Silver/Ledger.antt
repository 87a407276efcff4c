-- ===== src/Silver/Ledger.antt =====
-- de/silver/batch_ledger.py: which ledger row an event of a batch gets. The names of the tables are
-- those of de/silver/repositories.py, and the dispositions those of de/silver/contracts.py.
pub mod Replay
use smart_data_models.Prelude.{
  ℕ, String, Bool, true, false, ◌&&◌, Option, none, some, List, [], ◌∷◌, if◌then◌else◌, string_key,
  ◌==◌, Dict, get,
}

abbrev pub disposition_processed : String
disposition_processed = "PROCESSED"

abbrev pub disposition_quarantined : String
disposition_quarantined = "QUARANTINED"

abbrev pub disposition_documented_skip : String
disposition_documented_skip = "DOCUMENTED_SKIP"

abbrev pub fact_replay_map : Dict String String
fact_replay_map =
    ("silver_fact_traffic_observation", "silver_fact_traffic_observation_replay")
    ∷ ("silver_fact_signal_state", "silver_fact_signal_state_replay")
    ∷ ("silver_fact_intersection_state", "silver_fact_intersection_state_replay")
    ∷ ("silver_fact_camera_observation", "silver_fact_camera_observation_replay")
    ∷ ("silver_fact_run_event", "silver_fact_run_event_replay")
    ∷ []

pub record LedgerEntryState : Type 0 where
  pub checkpoint_namespace : String
  pub source_bronze_event_id : String
  pub raw_ingestion_id : String
  pub payload_hash : String
  pub disposition : String
  pub target_table : String
  pub processed_at : ℕ

pub data LedgerClassification : Type 0 where
  new compatible_terminal conflict : LedgerClassification

unfoldable pub is_semantically_compatible : LedgerEntryState → LedgerEntryState → Bool
is_semantically_compatible existing candidate =
    existing.checkpoint_namespace == candidate.checkpoint_namespace
    && existing.source_bronze_event_id == candidate.source_bronze_event_id
    && existing.payload_hash == candidate.payload_hash
    && existing.disposition == candidate.disposition
    && existing.target_table == candidate.target_table

unfoldable pub classify_existing_ledger :
    Option LedgerEntryState → LedgerEntryState → LedgerClassification
unfolding is_semantically_compatible
classify_existing_ledger none candidate = new
classify_existing_ledger (some existing) candidate =
    if is_semantically_compatible existing candidate then compatible_terminal else conflict

-- A target table, or the ValueError.
pub data Target : Type 0 where
  table : String → Target
  value_error : String → Target

unfoldable pub replay_of : Option String → Target
replay_of none = value_error "No replay target"
replay_of (some replay) = if replay == "" then value_error "No replay target" else table replay

unfoldable pub processed_target : Bool → Option String → Target
unfolding replay_of get
processed_target is_replay none = value_error "PROCESSED disposition requires primary_fact_table"
processed_target is_replay (some fact) =
    if fact == ""
    then value_error "PROCESSED disposition requires primary_fact_table"
    else if is_replay
    then replay_of (get fact_replay_map fact)
    else table fact

unfoldable pub resolve_target_table : String → Bool → Option String → Target
unfolding processed_target
resolve_target_table disposition is_replay fact =
    if disposition == disposition_processed
    then processed_target is_replay fact
    else if disposition == disposition_quarantined
    then table (if is_replay then "silver_quarantine_replay" else "silver_quarantine")
    else if disposition == disposition_documented_skip
    then table "NONE"
    else value_error "Unsupported disposition for target resolution"

pub record MaterializedLedgerEntry : Type 0 where
  pub entry : LedgerEntryState
  pub disposition_reason : String
  pub recovered_partial : Bool
  pub idempotent_observed : Bool

-- The arguments of one call, but for the row that was there before the batch.
pub record Proposal : Type 0 where
  pub namespace : String
  pub source_bronze_event_id : String
  pub raw_ingestion_id : String
  pub payload_hash : String
  pub proposed_disposition : String
  pub is_replay : Bool
  pub primary_fact_table : Option String
  pub outputs_recovered : Bool
  pub processed_at : ℕ

-- The entry, or one of the two exceptions.
pub data Materialized : Type 0 where
  entered : MaterializedLedgerEntry → Materialized
  ledger_conflict : Materialized
  invalid : String → Materialized

unfoldable pub candidate_of : Proposal → String → LedgerEntryState
candidate_of p target = record {
  checkpoint_namespace = p.namespace;
  source_bronze_event_id = p.source_bronze_event_id;
  raw_ingestion_id = p.raw_ingestion_id;
  payload_hash = p.payload_hash;
  disposition = p.proposed_disposition;
  target_table = target;
  processed_at = p.processed_at;
}

unfoldable pub reason_of : Proposal → String
reason_of p =
    if p.outputs_recovered
    then "RECOVERED_PARTIAL"
    else if p.proposed_disposition == disposition_processed
    then "NEW_PROCESSED"
    else if p.proposed_disposition == disposition_quarantined
    then "NEW_QUARANTINED"
    else "NEW"

unfoldable pub enter_new : Proposal → Target → Materialized
unfolding candidate_of reason_of
enter_new p (value_error e) = invalid e
enter_new p (table target) = entered (record {
  entry = candidate_of p target;
  disposition_reason = reason_of p;
  recovered_partial = p.outputs_recovered;
  idempotent_observed = false;
})

unfoldable pub observe : LedgerEntryState → LedgerClassification → Materialized
observe existing compatible_terminal = entered (record {
  entry = existing;
  disposition_reason = "IDEMPOTENT_SKIPPED";
  recovered_partial = false;
  idempotent_observed = true;
})
observe existing _ = ledger_conflict

unfoldable pub materialize_ledger_entry : Proposal → Option LedgerEntryState → Materialized
unfolding resolve_target_table classify_existing_ledger candidate_of enter_new observe
materialize_ledger_entry p none =
    enter_new p (resolve_target_table p.proposed_disposition p.is_replay p.primary_fact_table)
materialize_ledger_entry p (some existing) =
    observe existing
      (classify_existing_ledger (some existing) (candidate_of p existing.target_table))
