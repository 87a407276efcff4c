-- ===== src/Tests/Silver.antt =====
-- Tests of Silver: an event that is processed and comes again from another ingestion.
use smart_data_models.Prelude.{true, false, some, ◌≡◌, refl, get, string_key, if◌then◌else◌}
use smart_data_models.Silver.Ledger.{
  Proposal, MaterializedLedgerEntry, entered, ledger_conflict, table, resolve_target_table,
  processed_target, materialize_ledger_entry, enter_new, candidate_of, reason_of, replay_of,
}
use smart_data_models.Silver.Ledger.Replay.{same_outcome, materialize_ledger_entry-again, seen}

abbrev proposal : Proposal
proposal = record {
  namespace = "live";
  source_bronze_event_id = "e1";
  raw_ingestion_id = "i1";
  payload_hash = "h";
  proposed_disposition = "PROCESSED";
  is_replay = false;
  primary_fact_table = some "silver_fact_signal_state";
  outputs_recovered = false;
  processed_at = 1;
}

abbrev materialized : MaterializedLedgerEntry
materialized = record {
  entry = record {
    checkpoint_namespace = "live";
    source_bronze_event_id = "e1";
    raw_ingestion_id = "i1";
    payload_hash = "h";
    disposition = "PROCESSED";
    target_table = "silver_fact_signal_state";
    processed_at = 1;
  };
  disposition_reason = "NEW_PROCESSED";
  recovered_partial = false;
  idempotent_observed = false;
}

materialize_ledger_entry-again_example :
    materialize_ledger_entry
      (record proposal { raw_ingestion_id = "i2"; is_replay = true })
      (some materialized.entry)
    ≡ (if same_outcome proposal (record proposal { raw_ingestion_id = "i2"; is_replay = true })
        then entered (seen materialized.entry)
        else ledger_conflict)
materialize_ledger_entry-again_example =
    materialize_ledger_entry-again proposal
      (record proposal { raw_ingestion_id = "i2"; is_replay = true }) materialized
      (unfold materialize_ledger_entry resolve_target_table processed_target enter_new candidate_of
          reason_of in
        refl)

-- A replay writes the mirror of the fact table.
mirror :
    resolve_target_table "PROCESSED" true (some "silver_fact_run_event")
    ≡ table "silver_fact_run_event_replay"
unfolding resolve_target_table processed_target replay_of get
mirror = refl
