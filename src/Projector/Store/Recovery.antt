-- ===== src/Projector/Store/Recovery.antt =====
-- Visualize/integration/projector/store.py: `rebuild_completed_offsets` and
-- `reconcile_runtime_state_from_entities`, which a restart uses.
pub mod Run
pub mod Rewind
use smart_data_models.Prelude.{
  ℕ, ◌+◌, ◌≤◌, ◌<◌, String, Bool, true, false, ◌&&◌, ◌||◌, Option, none, some, List, [], ◌∷◌, ◌≡◌,
  refl, sym, ap, ◌∙◌, subst, ◌⊎◌, ◌≢◌, inl, inr, arith, ltb, leb, eqb, if◌then◌else◌, if-split,
  Bool-cases, string_key, ◌==◌, Dict, TopicPartition, topic_partition_key, same_refl,
}
use smart_data_models.Projector.Tables.{
  Status, is_completed, LedgerRow, TextPair, text_pair_key, EntityState, RuntimeState,
  ProjectorStore,
}
use smart_data_models.Projector.Store.{time_or_zero, takes_over, runtime_after, set_runtime_state}

-- `offset > ?`, where it is given
abbrev pub is_after : Option ℕ → ℕ → Bool
is_after none offset = true
is_after (some a) offset = ltb a offset

-- The offsets and the statuses of the rows of a partition, those after `after_offset` where it is given.
unfoldable pub rows_of : Dict String LedgerRow → TopicPartition → Option ℕ → List (ℕ × Status)
rows_of [] place after = []
rows_of ((id, r) ∷ ledger) place after =
    let rest = rows_of ledger place after in
    if r.place == place && is_after after r.offset then (r.offset, r.status) ∷ rest else rest

-- `ORDER BY offset ASC`: a stable insertion sort.
unfoldable pub insert_by_offset : ℕ × Status → List (ℕ × Status) → List (ℕ × Status)
insert_by_offset p [] = p ∷ []
insert_by_offset p (q ∷ qs) =
    let rest = insert_by_offset p qs in if leb p.0 q.0 then p ∷ q ∷ qs else q ∷ rest

unfoldable pub order_by_offset : List (ℕ × Status) → List (ℕ × Status)
unfolding insert_by_offset
order_by_offset [] = []
order_by_offset (p ∷ ps) = insert_by_offset p (order_by_offset ps)

-- The loop over the rows.
unfoldable pub run_on : List (ℕ × Status) → ℕ → Option ℕ → Option ℕ
run_on [] expected last = last
run_on ((offset, status) ∷ rows) expected last =
    let rest = run_on rows (offset + 1) (some offset) in
    if eqb offset expected then (if is_completed status then rest else last) else last

unfoldable pub run_from : List (ℕ × Status) → Option ℕ → Option ℕ
unfolding run_on
run_from [] after = after
run_from (p ∷ ps) none = run_on (p ∷ ps) p.0 none
run_from (p ∷ ps) (some a) = run_on (p ∷ ps) (a + 1) (some a)

unfoldable pub rebuild_completed_offsets : ProjectorStore → TopicPartition → Option ℕ → Option ℕ
unfolding run_from order_by_offset rows_of
rebuild_completed_offsets s place after =
    run_from (order_by_offset (rows_of s.ledger place after)) after

-- The entity states of a run, the highest cycle and in it the latest time first: the first one.
unfoldable pub later_state : EntityState → EntityState → Bool
later_state a b =
    ltb b.last_cycle_sequence a.last_cycle_sequence
    || (eqb b.last_cycle_sequence a.last_cycle_sequence
        && ltb (time_or_zero b.last_simulation_time) (time_or_zero a.last_simulation_time))

unfoldable pub latest : String → Dict TextPair EntityState → Option EntityState → Option EntityState
unfolding later_state
latest run [] best = best
latest run ((key, e) ∷ entities) best = latest run entities (
    if key.0 == run
    then (elim best [ none ↦ some e | some b ↦ if later_state e b then some e else some b ])
    else best)

unfoldable pub reconciled :
    ProjectorStore → String → Option EntityState → Option RuntimeState → ProjectorStore
unfolding set_runtime_state
reconciled s run none current = s
reconciled s run (some e) none = s
reconciled s run (some e) (some current) =
    (set_runtime_state s (record current {
      simulation_run_id = some run;
      simulation_time = time_or_zero e.last_simulation_time;
      last_applied_cycle = e.last_cycle_sequence;
    })).0

unfoldable pub reconcile_runtime_state_from_entities : ProjectorStore → String → ProjectorStore
unfolding reconciled latest
reconcile_runtime_state_from_entities s run =
    reconciled s run (latest run s.entities none) s.runtime
