-- ===== src/Projector/Store/Upserts.antt =====
-- What the transactions of Visualize/integration/projector/store.py keep: no ledger row and no entity
-- state is lost, no payload hash changes, and no entity state goes back.
use smart_data_models.Prelude.{
  ℕ, ◌≤◌, ◌<◌, String, true, false, Option, none, some, List, [], ◌∷◌, ◌≡◌, refl, ◌∙◌, Bool-cases,
  ltb→lt, Onward-put_found, Onward-put_new, ◌⊎◌, inl, inr, arith, ltb, if-elim, if-split,
  string_key, Dict, get, put, topic_partition_key, Onward, Onward-refl, Onward-trans,
}
use native.Mathlib.Nat.{le_refl, le_trans}
use smart_data_models.Projector.Tables.{
  is_pending, coalesced_superseded, LedgerRow, TextPair, text_pair_key, EntityState, ProjectorStore,
}
use smart_data_models.Projector.Store.{
  is_taken, merged_row, insert_row, upsert_row, upsert_next, upsert_rows, EntityUpdate,
  time_or_zero, is_newer, upsert_entity, upsert_entities, superseded, supersede_found,
  supersede_rows, apply_rows, apply_batch_tx,
}

-- The second state is of a later cycle, or of the same cycle and no earlier time.
abbrev pub IsNotOlder : EntityState → EntityState → Type 0
IsNotOlder old new =
    (old.last_cycle_sequence < new.last_cycle_sequence)
    ⊎ ((old.last_cycle_sequence ≡ new.last_cycle_sequence)
        × (time_or_zero old.last_simulation_time ≤ time_or_zero new.last_simulation_time))

-- What an update of a ledger row never changes.
pub record IsSameEvent (r r' : LedgerRow) : Type 0 where
  pub event_id : r'.event_id ≡ r.event_id
  pub place : r'.place ≡ r.place
  pub offset : r'.offset ≡ r.offset
  pub simulation_run_id : r'.simulation_run_id ≡ r.simulation_run_id
  pub cycle_sequence : r'.cycle_sequence ≡ r.cycle_sequence
  pub entity_id : r'.entity_id ≡ r.entity_id
  pub payload_hash : r'.payload_hash ≡ r.payload_hash

pub IsSameEvent-refl : (r : LedgerRow) → IsSameEvent r r
IsSameEvent-refl r = record {
  event_id = refl;
  place = refl;
  offset = refl;
  simulation_run_id = refl;
  cycle_sequence = refl;
  entity_id = refl;
  payload_hash = refl;
}

pub IsSameEvent-trans : (a b c : LedgerRow) → IsSameEvent a b → IsSameEvent b c → IsSameEvent a c
IsSameEvent-trans a b c p q = record {
  event_id = q.event_id ∙ p.event_id;
  place = q.place ∙ p.place;
  offset = q.offset ∙ p.offset;
  simulation_run_id = q.simulation_run_id ∙ p.simulation_run_id;
  cycle_sequence = q.cycle_sequence ∙ p.cycle_sequence;
  entity_id = q.entity_id ∙ p.entity_id;
  payload_hash = q.payload_hash ∙ p.payload_hash;
}

pub IsNotOlder-refl : (e : EntityState) → IsNotOlder e e
IsNotOlder-refl e = inr (refl, omega arith)

pub IsNotOlder-trans : (a b c : EntityState) → IsNotOlder a b → IsNotOlder b c → IsNotOlder a c
IsNotOlder-trans a b c (inl p) (inl q) = inl (omega arith)
IsNotOlder-trans a b c (inl p) (inr q) = inl (omega (arith, q.0))
IsNotOlder-trans a b c (inr p) (inl q) = inl (omega (arith, p.0))
IsNotOlder-trans a b c (inr p) (inr q) = inr (p.0 ∙ q.0, omega (arith, p.1, q.1))

is_newer-IsNotOlder : (new old : EntityState) → is_newer new old ≡ true → IsNotOlder old new
unfolding is_newer
is_newer-IsNotOlder new old h =
    elim (Bool-cases (ltb old.last_cycle_sequence new.last_cycle_sequence)) [
      | inl later ↦ inl (ltb→lt _ _ later)
      | inr same ↦ inr (ground (arith, h, same), ground (arith, h, same))
    ]

abbrev LedgerOnward : Dict String LedgerRow → Dict String LedgerRow → Type 0
LedgerOnward = Onward IsSameEvent

abbrev EntitiesOnward : Dict TextPair EntityState → Dict TextPair EntityState → Type 0
EntitiesOnward = Onward IsNotOlder

upsert_entity-Onward :
    (entities : Dict TextPair EntityState) (u : EntityUpdate) (o : Option EntityState)
    → get entities u.0 ≡ o
    → EntitiesOnward entities (upsert_entity entities u o)
unfolding upsert_entity
upsert_entity-Onward entities (key, new) none h =
    Onward-put_new IsNotOlder entities key new IsNotOlder-refl h
upsert_entity-Onward entities (key, new) (some old) h =
    if-split (EntitiesOnward entities) (is_newer new old) (put entities key new) entities
      (λ (newer : is_newer new old ≡ true).
        Onward-put_found IsNotOlder entities key old new IsNotOlder-refl h
          (is_newer-IsNotOlder new old newer))
      (λ (_ : is_newer new old ≡ false). Onward-refl IsNotOlder entities IsNotOlder-refl)

upsert_entities-Onward :
    (entities : Dict TextPair EntityState) (us : List EntityUpdate)
    → EntitiesOnward entities (upsert_entities entities us)
unfolding upsert_entities
upsert_entities-Onward entities [] = Onward-refl IsNotOlder entities IsNotOlder-refl
upsert_entities-Onward entities (u ∷ us) =
    Onward-trans IsNotOlder IsNotOlder-trans
      (upsert_entity-Onward entities u (get entities u.0) refl)
      (upsert_entities-Onward (upsert_entity entities u (get entities u.0)) us)

merged_row-IsSameEvent : (old new : LedgerRow) → IsSameEvent old (merged_row old new)
unfolding merged_row
merged_row-IsSameEvent old new = record {
  event_id = refl;
  place = refl;
  offset = refl;
  simulation_run_id = refl;
  cycle_sequence = refl;
  entity_id = refl;
  payload_hash = refl;
}

-- The table that an INSERT leaves, where it succeeds.
abbrev Inserted : Dict String LedgerRow → Option (Dict String LedgerRow) → Type 0
Inserted ledger none = Unit
Inserted ledger (some ledger') = LedgerOnward ledger ledger'

insert_row-Inserted :
    (ledger : Dict String LedgerRow) (r : LedgerRow) (o : Option LedgerRow)
    → get ledger r.event_id ≡ o
    → Inserted ledger (insert_row ledger r o)
unfolding insert_row
insert_row-Inserted ledger r (some old) h =
    Onward-put_found IsSameEvent ledger r.event_id old (merged_row old r) IsSameEvent-refl h
      (merged_row-IsSameEvent old r)
insert_row-Inserted ledger r none h =
    if-elim (Inserted ledger) (is_taken ledger r.place r.offset) none
      (some (put ledger r.event_id r)) tt
      (Onward-put_new IsSameEvent ledger r.event_id r IsSameEvent-refl h)

Inserted-trans :
    (d e : Dict String LedgerRow) (o : Option (Dict String LedgerRow))
    → LedgerOnward d e
    → Inserted e o
    → Inserted d o
Inserted-trans d e none p q = tt
Inserted-trans d e (some f) p q = Onward-trans IsSameEvent IsSameEvent-trans p q

upsert_next-Inserted :
    (ledger : Dict String LedgerRow) (rest : Dict String LedgerRow → Option (Dict String LedgerRow))
    (o : Option (Dict String LedgerRow))
    → ((d : Dict String LedgerRow) → Inserted d (rest d))
    → Inserted ledger o
    → Inserted ledger (upsert_next rest o)
unfolding upsert_next
upsert_next-Inserted ledger rest none keeps p = tt
upsert_next-Inserted ledger rest (some d) keeps p = Inserted-trans ledger d (rest d) p (keeps d)

upsert_rows-Inserted :
    (ledger : Dict String LedgerRow) (rs : List LedgerRow) → Inserted ledger (upsert_rows ledger rs)
unfolding upsert_rows
upsert_rows-Inserted ledger [] = Onward-refl IsSameEvent ledger IsSameEvent-refl
upsert_rows-Inserted ledger (r ∷ rs) =
    upsert_next-Inserted ledger (λ next. upsert_rows next rs) (upsert_row ledger r)
      (λ d. upsert_rows-Inserted d rs)
      (unfold upsert_row in insert_row-Inserted ledger r (get ledger r.event_id) refl)

superseded-IsSameEvent : (now : ℕ) (r : LedgerRow) → IsSameEvent r (superseded now r)
unfolding superseded
superseded-IsSameEvent now r =
    if-elim (IsSameEvent r) (is_pending r.status)
      (record r { status = coalesced_superseded; completed_at = some now }) r
      (record {
        event_id = refl;
        place = refl;
        offset = refl;
        simulation_run_id = refl;
        cycle_sequence = refl;
        entity_id = refl;
        payload_hash = refl;
      })
      (IsSameEvent-refl r)

supersede_found-Onward :
    (ledger : Dict String LedgerRow) (id : String) (now : ℕ) (o : Option LedgerRow)
    → get ledger id ≡ o
    → LedgerOnward ledger (supersede_found ledger id now o)
unfolding supersede_found
supersede_found-Onward ledger id now none h = Onward-refl IsSameEvent ledger IsSameEvent-refl
supersede_found-Onward ledger id now (some r) h =
    Onward-put_found IsSameEvent ledger id r (superseded now r) IsSameEvent-refl h
      (superseded-IsSameEvent now r)

supersede_rows-Onward :
    (ledger : Dict String LedgerRow) (ids : List String) (now : ℕ)
    → LedgerOnward ledger (supersede_rows ledger ids now)
unfolding supersede_rows
supersede_rows-Onward ledger [] now = Onward-refl IsSameEvent ledger IsSameEvent-refl
supersede_rows-Onward ledger (id ∷ ids) now =
    Onward-trans IsSameEvent IsSameEvent-trans
      (supersede_found-Onward ledger id now (get ledger id) refl)
      (supersede_rows-Onward (supersede_found ledger id now (get ledger id)) ids now)

-- What moves on in a store: the ledger, the entity states and the commits.
pub record IsOnward (s s' : ProjectorStore) : Type 0 where
  pub ledger : LedgerOnward s.ledger s'.ledger
  pub entities : EntitiesOnward s.entities s'.entities
  pub commits : Onward ◌≤◌ s.commits s'.commits

pub IsOnward-refl : (s : ProjectorStore) → IsOnward s s
IsOnward-refl s = record {
  ledger = Onward-refl IsSameEvent s.ledger IsSameEvent-refl;
  entities = Onward-refl IsNotOlder s.entities IsNotOlder-refl;
  commits = Onward-refl ◌≤◌ s.commits (λ n. le_refl n);
}

pub IsOnward-trans : {a b c : ProjectorStore} → IsOnward a b → IsOnward b c → IsOnward a c
IsOnward-trans p q = record {
  ledger = Onward-trans IsSameEvent IsSameEvent-trans p.ledger q.ledger;
  entities = Onward-trans IsNotOlder IsNotOlder-trans p.entities q.entities;
  commits = Onward-trans ◌≤◌ (λ a b c h k. le_trans h k) p.commits q.commits;
}

apply_rows-IsOnward :
    (s : ProjectorStore) (updates : List EntityUpdate) (ids : List String) (now : ℕ)
    (o : Option (Dict String LedgerRow))
    → Inserted s.ledger o
    → IsOnward s (apply_rows s updates ids now o).0
unfolding apply_rows
apply_rows-IsOnward s updates ids now none h = IsOnward-refl s
apply_rows-IsOnward s updates ids now (some ledger) h = record {
  ledger = Onward-trans IsSameEvent IsSameEvent-trans h (supersede_rows-Onward ledger ids now);
  entities = upsert_entities-Onward s.entities updates;
  commits = Onward-refl ◌≤◌ s.commits (λ n. le_refl n);
}

-- A transaction, whatever its rows and its end are, loses no ledger row and no entity state, changes
-- of a ledger row neither the event nor its place nor its payload hash, and moves no entity state back
-- to an earlier cycle, nor within a cycle to an earlier time.
pub apply_batch_tx-IsOnward :
    (s : ProjectorStore) (rows : List LedgerRow) (updates : List EntityUpdate) (ids : List String)
    (now : ℕ) (error : Option String)
    → IsOnward s (apply_batch_tx s rows updates ids now error).0
unfolding apply_batch_tx
apply_batch_tx-IsOnward s rows updates ids now none =
    apply_rows-IsOnward s updates ids now (upsert_rows s.ledger rows)
      (upsert_rows-Inserted s.ledger rows)
apply_batch_tx-IsOnward s rows updates ids now (some e) = IsOnward-refl s

-- A transaction that raises has changed nothing.
pub apply_batch_tx-rollback :
    (s : ProjectorStore) (rows : List LedgerRow) (updates : List EntityUpdate) (ids : List String)
    (now : ℕ) (error : Option String) (e : String)
    → (apply_batch_tx s rows updates ids now error).1 ≡ some e
    → (apply_batch_tx s rows updates ids now error).0 ≡ s
unfolding apply_batch_tx
apply_batch_tx-rollback s rows updates ids now (some x) e h = refl
apply_batch_tx-rollback s rows updates ids now none e h = rolled (upsert_rows s.ledger rows) h
  where
    rolled :
        (o : Option (Dict String LedgerRow))
        → (apply_rows s updates ids now o).1 ≡ some e
        → (apply_rows s updates ids now o).0 ≡ s
    rolled none k = unfold apply_rows in refl
    rolled (some ledger) k = unfold apply_rows in absurd (cc k)
