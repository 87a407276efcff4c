-- ===== src/Projector/Store/Commits.antt =====
-- Visualize/integration/projector/store.py: the commits with the gaps that they pass, and the runtime state.
use smart_data_models.Prelude.{
  ℕ, ◌+◌, ◌-◌, String, Bool, true, false, not, ◌&&◌, ◌||◌, Option, none, some, List, [], ◌∷◌, ◌++◌,
  leb, ltb, eqb, if◌then◌else◌, keep, string_key, ◌==◌, Dict, get, put, TopicPartition,
  topic_partition_key,
}
use smart_data_models.Projector.Tables.{text_pair_key, Gap, RuntimeState, ProjectorStore}

unfoldable pub set_committed_offset :
    ProjectorStore → TopicPartition → ℕ → Option String → ProjectorStore × Option String
unfolding put
set_committed_offset s place offset none = (record s { commits = put s.commits place offset }, none)
set_committed_offset s place offset (some e) = (s, some e)

unfoldable pub get_committed_offset : ProjectorStore → TopicPartition → Option ℕ
unfolding get
get_committed_offset s place = get s.commits place

unfoldable pub has_any_commits : Dict TopicPartition ℕ → String → Bool
has_any_commits [] topic = false
has_any_commits ((place, n) ∷ commits) topic = place.0 == topic || has_any_commits commits topic

unfoldable pub same_gap : TopicPartition → ℕ → ℕ → Gap → Bool
same_gap place low high g = g.place == place && eqb g.from_offset low && eqb g.to_offset high

unfoldable pub has_gap : TopicPartition → ℕ → ℕ → List Gap → Bool
unfolding same_gap
has_gap place low high [] = false
has_gap place low high (g ∷ gaps) = same_gap place low high g || has_gap place low high gaps

-- `INSERT OR IGNORE`
unfoldable pub with_gap : List Gap → TopicPartition → ℕ → ℕ → ℕ → List Gap
unfolding has_gap
with_gap gaps place low high now =
    if has_gap place low high gaps
    then gaps
    else gaps
      ++ record { place = place; from_offset = low; to_offset = high; created_at = now } ∷ []

unfoldable pub pass_gap :
    ProjectorStore → TopicPartition → ℕ → ℕ → Option ℕ → ProjectorStore × Option (ℕ × ℕ)
unfolding put with_gap
pass_gap s place low now none = (s, none)
pass_gap s place low now (some current) = if leb low (current + 1) then (s, none) else (
  record s {
    gaps = with_gap s.gaps place (current + 1) (low - 1) now;
    commits = put s.commits place (low - 1);
  },
  some (current + 1, low - 1),
)

-- The gap that was passed, if any. An error of SQLite leaves the store as it was.
unfoldable pub advance_past_retention_gap :
    ProjectorStore
    → TopicPartition
    → ℕ
    → ℕ
    → Option String
    → (ProjectorStore × Option (ℕ × ℕ)) × Option String
unfolding get pass_gap
advance_past_retention_gap s place low now none =
    (pass_gap s place low now (get s.commits place), none)
advance_past_retention_gap s place low now (some e) = ((s, none), some e)

-- `ORDER BY from_offset`: a stable insertion sort.
unfoldable pub insert_gap : Gap → List Gap → List Gap
insert_gap g [] = g ∷ []
insert_gap g (h ∷ gaps) =
    let rest = insert_gap g gaps in
    if leb g.from_offset h.from_offset then g ∷ h ∷ gaps else h ∷ rest

unfoldable pub order_gaps : List Gap → List Gap
unfolding insert_gap
order_gaps [] = []
order_gaps (g ∷ gaps) = insert_gap g (order_gaps gaps)

unfoldable pub get_retention_gaps : ProjectorStore → TopicPartition → List Gap
unfolding order_gaps
get_retention_gaps s place = order_gaps (keep (λ g. g.place == place) s.gaps)

-- The runtime state

-- The WHERE of the upsert.
unfoldable pub takes_over : RuntimeState → RuntimeState → Bool
takes_over new old = elim old.simulation_run_id [
  | none ↦ true
  | some old_run ↦ elim new.simulation_run_id [
    | none ↦
        ltb old.last_applied_cycle new.last_applied_cycle
        || (eqb new.last_applied_cycle old.last_applied_cycle
            && leb old.simulation_time new.simulation_time)
    | some new_run ↦
        not (old_run == new_run)
        || ltb old.last_applied_cycle new.last_applied_cycle
        || (eqb new.last_applied_cycle old.last_applied_cycle
            && leb old.simulation_time new.simulation_time)
  ]
]

-- The row that stands after the call, which it returns.
unfoldable pub runtime_after : RuntimeState → Option RuntimeState → RuntimeState
unfolding takes_over
runtime_after new none = new
runtime_after new (some old) = if takes_over new old then new else old

unfoldable pub set_runtime_state : ProjectorStore → RuntimeState → ProjectorStore × RuntimeState
unfolding runtime_after
set_runtime_state s new =
    let row = runtime_after new s.runtime in (record s { runtime = some row }, row)
