-- ===== src/Silver/Ledger/Replay.antt =====
-- de/silver/batch_ledger.py: an event that comes again.
use smart_data_models.Prelude.{
  String, Bool, true, false, ◌&&◌, none, some, ◌≡◌, refl, sym, ap, ◌∙◌, subst, arith, if◌then◌else◌,
  string_key, ◌==◌, same_refl,
}
use smart_data_models.Silver.Ledger.{
  LedgerEntryState, compatible_terminal, conflict, is_semantically_compatible,
  classify_existing_ledger, Target, table, value_error, resolve_target_table,
  MaterializedLedgerEntry, Proposal, Materialized, entered, ledger_conflict, invalid, candidate_of,
  enter_new, observe, materialize_ledger_entry,
}

-- The second proposal is of the same event with the same outcome.
abbrev pub same_outcome : Proposal → Proposal → Bool
same_outcome p q =
    p.namespace == q.namespace
    && p.source_bronze_event_id == q.source_bronze_event_id
    && p.payload_hash == q.payload_hash
    && p.proposed_disposition == q.proposed_disposition

abbrev pub seen : LedgerEntryState → MaterializedLedgerEntry
seen e = record {
  entry = e;
  disposition_reason = "IDEMPOTENT_SKIPPED";
  recovered_partial = false;
  idempotent_observed = true;
}

compatible-candidate_of :
    (p q : Proposal) (target : String)
    → is_semantically_compatible (candidate_of p target) (candidate_of q target) ≡ same_outcome p q
unfolding is_semantically_compatible candidate_of
compatible-candidate_of p q target = ground (arith, same_refl target)

observe_if :
    (e : LedgerEntryState) (b : Bool)
    → observe e (if b then compatible_terminal else conflict)
      ≡ (if b then entered (seen e) else ledger_conflict)
unfolding observe
observe_if e true = refl
observe_if e false = refl

observe_again :
    (p q : Proposal) (target : String)
    → materialize_ledger_entry q (some (candidate_of p target))
      ≡ (if same_outcome p q then entered (seen (candidate_of p target)) else ledger_conflict)
unfolding materialize_ledger_entry classify_existing_ledger
observe_again p q target =
    ap (λ (b : Bool). observe (candidate_of p target) (if b then compatible_terminal else conflict))
      (compatible-candidate_of p q target)
    ∙ observe_if (candidate_of p target) (same_outcome p q)

abbrev entry_of : LedgerEntryState → Materialized → LedgerEntryState
entry_of default (entered m) = m.entry
entry_of default ledger_conflict = default
entry_of default (invalid e) = default

-- The entry of a target is the candidate.
entry-enter_new :
    (p : Proposal) (t : Target) (m : MaterializedLedgerEntry)
    → enter_new p t ≡ entered m
    → (target : String) × (m.entry ≡ candidate_of p target)
unfolding enter_new
entry-enter_new p (value_error e) m h = cc h
entry-enter_new p (table target) m h = (target, sym (ap (entry_of (candidate_of p target)) h))

-- An event whose ledger row a first proposal created is skipped, with that row, at every later
-- proposal with the same payload hash and disposition, whatever its ingestion id, its mode and its
-- fact table are; any other proposal for it is a conflict.
pub materialize_ledger_entry-again :
    (p q : Proposal) (m : MaterializedLedgerEntry)
    → materialize_ledger_entry p none ≡ entered m
    → materialize_ledger_entry q (some m.entry)
      ≡ (if same_outcome p q then entered (seen m.entry) else ledger_conflict)
materialize_ledger_entry-again p q m h =
    let (target, same) =
      entry-enter_new p
        (resolve_target_table p.proposed_disposition p.is_replay p.primary_fact_table) m
        (unfold materialize_ledger_entry in h) in
    subst
      (λ (e : LedgerEntryState).
        materialize_ledger_entry q (some e)
        ≡ (if same_outcome p q then entered (seen e) else ledger_conflict))
      (sym same) (observe_again p q target)
