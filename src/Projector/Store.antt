-- ===== src/Projector/Store.antt =====
-- Visualize/integration/projector/store.py: `ProjectorStore`. The clock's reading is an argument, and
-- so is the error of SQLite where a transaction meets one: it rolls back and raises. `none` beside a
-- store says that the call returned.
pub mod Upserts
pub mod Recovery
pub mod Cleanup
mod Commits
unfoldable pub use Commits.*
use smart_data_models.Prelude.{
  ℕ, zero, suc, ◌+◌, ◌-◌, String, Bool, true, false, not, ◌&&◌, ◌||◌, Option, none, some, List, [],
  ◌∷◌, ◌++◌, map, leb, ltb, eqb, if◌then◌else◌, is_some, keep, string_key, ◌==◌, Dict, get, put,
  remove, TopicPartition, topic_partition_key,
}
use smart_data_models.Projector.Tables.{
  Status, pending, coalesced_superseded, is_completed, is_pending, LedgerRow, TextPair,
  text_pair_key, EntityState, ActiveRun, Gap, RuntimeState, ProjectorStore,
}

-- Active runs

-- `UPDATE projector_active_runs SET status = INACTIVE WHERE source = ? AND producer_id = ? AND ...`
unfoldable pub deactivated :
    Dict TextPair ActiveRun → TextPair → Option ActiveRun → Dict TextPair ActiveRun
unfolding put
deactivated runs key none = runs
deactivated runs key (some run) = put runs key (record run { is_active = false })

unfoldable pub activated : ProjectorStore → TextPair → String → String → ℕ → ProjectorStore
unfolding get put deactivated
activated s key session run now = record s {
  runs = put (deactivated s.runs key (get s.runs key)) key (record {
    producer_session_id = session;
    simulation_run_id = run;
    activated_at = now;
    is_active = true;
  });
}

unfoldable pub activate_run :
    ProjectorStore → TextPair → String → String → ℕ → Option String → ProjectorStore × Option String
unfolding activated
activate_run s key session run now none = (activated s key session run now, none)
activate_run s key session run now (some e) = (s, some e)

-- `WHERE ... AND status = ACTIVE`
unfoldable pub if_active : Option ActiveRun → Option ActiveRun
if_active none = none
if_active (some run) = if run.is_active then some run else none

unfoldable pub get_active_run : ProjectorStore → TextPair → Option ActiveRun
unfolding get if_active
get_active_run s key = if_active (get s.runs key)

unfoldable pub same_active : Option ActiveRun → String → Bool
same_active none run = false
same_active (some active) run = active.simulation_run_id == run

unfoldable pub is_active_simulation_run : ProjectorStore → TextPair → String → Bool
unfolding get_active_run same_active
is_active_simulation_run s key run = same_active (get_active_run s key) run

-- The ledger and the entity states

-- `UNIQUE(topic, partition, offset)`: some row has the place.
unfoldable pub is_taken : Dict String LedgerRow → TopicPartition → ℕ → Bool
is_taken [] place offset = false
is_taken ((id, r) ∷ ledger) place offset =
    (r.place == place && eqb r.offset offset) || is_taken ledger place offset

unfoldable pub or_else : Option String → Option String → Option String
or_else none default = default
or_else (some t) default = some t

-- `ON CONFLICT(event_id) DO UPDATE`
unfoldable pub merged_row : LedgerRow → LedgerRow → LedgerRow
unfolding or_else
merged_row old new = record old {
  status = new.status;
  replacement_event_id = or_else new.replacement_event_id old.replacement_event_id;
  completed_at = new.completed_at;
}

-- One INSERT; `none` is the IntegrityError of the place. SQLite tests the conflict target first.
unfoldable pub insert_row :
    Dict String LedgerRow → LedgerRow → Option LedgerRow → Option (Dict String LedgerRow)
unfolding put merged_row is_taken
insert_row ledger r (some old) = some (put ledger r.event_id (merged_row old r))
insert_row ledger r none =
    if is_taken ledger r.place r.offset then none else some (put ledger r.event_id r)

unfoldable pub upsert_row : Dict String LedgerRow → LedgerRow → Option (Dict String LedgerRow)
unfolding get insert_row
upsert_row ledger r = insert_row ledger r (get ledger r.event_id)

unfoldable pub upsert_next :
    (Dict String LedgerRow → Option (Dict String LedgerRow))
    → Option (Dict String LedgerRow)
    → Option (Dict String LedgerRow)
upsert_next rest none = none
upsert_next rest (some ledger) = rest ledger

unfoldable pub upsert_rows : Dict String LedgerRow → List LedgerRow → Option (Dict String LedgerRow)
unfolding upsert_row upsert_next
upsert_rows ledger [] = some ledger
upsert_rows ledger (r ∷ rs) = upsert_next (λ next. upsert_rows next rs) (upsert_row ledger r)

-- (the run and the entity, its new state)
abbrev pub EntityUpdate : Type 0
EntityUpdate = TextPair × EntityState

-- `COALESCE(last_simulation_time, 0)`
abbrev pub time_or_zero : Option ℕ → ℕ
time_or_zero none = 0
time_or_zero (some t) = t

-- The WHERE of the upsert: a later cycle, or the same cycle and no earlier time.
unfoldable pub is_newer : EntityState → EntityState → Bool
is_newer new old =
    ltb old.last_cycle_sequence new.last_cycle_sequence
    || (eqb new.last_cycle_sequence old.last_cycle_sequence
        && leb (time_or_zero old.last_simulation_time) (time_or_zero new.last_simulation_time))

unfoldable pub upsert_entity :
    Dict TextPair EntityState → EntityUpdate → Option EntityState → Dict TextPair EntityState
unfolding put is_newer
upsert_entity entities (key, new) none = put entities key new
upsert_entity entities (key, new) (some old) =
    if is_newer new old then put entities key new else entities

unfoldable pub upsert_entities :
    Dict TextPair EntityState → List EntityUpdate → Dict TextPair EntityState
unfolding get upsert_entity
upsert_entities entities [] = entities
upsert_entities entities (u ∷ us) = upsert_entities (upsert_entity entities u (get entities u.0)) us

unfoldable pub superseded : ℕ → LedgerRow → LedgerRow
superseded now r =
    if is_pending r.status
    then record r { status = coalesced_superseded; completed_at = some now }
    else r

unfoldable pub supersede_found :
    Dict String LedgerRow → String → ℕ → Option LedgerRow → Dict String LedgerRow
unfolding put superseded
supersede_found ledger id now none = ledger
supersede_found ledger id now (some r) = put ledger id (superseded now r)

unfoldable pub supersede_rows : Dict String LedgerRow → List String → ℕ → Dict String LedgerRow
unfolding get supersede_found
supersede_rows ledger [] now = ledger
supersede_rows ledger (id ∷ ids) now =
    supersede_rows (supersede_found ledger id now (get ledger id)) ids now

unfoldable pub apply_rows :
    ProjectorStore
    → List EntityUpdate
    → List String
    → ℕ
    → Option (Dict String LedgerRow)
    → ProjectorStore × Option String
unfolding upsert_entities supersede_rows
apply_rows s updates superseded_ids now none = (s, some "UNIQUE constraint failed")
apply_rows s updates superseded_ids now (some ledger) = (
  record s {
    ledger = supersede_rows ledger superseded_ids now;
    entities = upsert_entities s.entities updates;
  },
  none,
)

-- One transaction: all of it, or nothing.
unfoldable pub apply_batch_tx :
    ProjectorStore
    → List LedgerRow
    → List EntityUpdate
    → List String
    → ℕ
    → Option String
    → ProjectorStore × Option String
unfolding upsert_rows apply_rows
apply_batch_tx s rows updates superseded_ids now none =
    apply_rows s updates superseded_ids now (upsert_rows s.ledger rows)
apply_batch_tx s rows updates superseded_ids now (some e) = (s, some e)

unfoldable pub get_ledger : ProjectorStore → String → Option LedgerRow
unfolding get
get_ledger s id = get s.ledger id

unfoldable pub get_entity_state : ProjectorStore → TextPair → Option EntityState
unfolding get
get_entity_state s key = get s.entities key
