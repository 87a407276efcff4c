-- ===== src/Outbox/Table.antt =====
-- The table `kafka_outbox` of Visualize/integration/kafka/outbox_schema.py, and the SQL statements
-- that outbox_store.py runs on it. Rows stand in the order of insertion. A timestamp, a text of
-- fixed width in the source, is a number of microseconds.
use smart_data_models.Prelude.{
  ℕ, ◌+◌, String, ℤ, Bool, true, false, ◌||◌, Option, none, some, List, [], ◌∷◌, ◌++◌, leb,
  if◌then◌else◌, string_key, ◌==◌, count_by,
}

pub data EventKind : Type 0 where
  entity run_started : EventKind

pub data Status : Type 0 where
  outboxed queued acked failed_retryable failed_permanent : Status

abbrev pub is_status : Status → Status → Bool
is_status outboxed outboxed = true
is_status queued queued = true
is_status acked acked = true
is_status failed_retryable failed_retryable = true
is_status failed_permanent failed_permanent = true
is_status _ _ = false

pub record OutboxRecord : Type 0 where
  pub event_id : String
  pub simulation_run_id : String
  pub cycle_sequence : ℤ
  pub entity_sequence : ℤ
  pub event_key : String
  pub topic : String
  pub payload_json : String
  pub payload_hash : String
  pub event_kind : EventKind
  pub outbox_sequence : ℕ
  pub status : Status
  pub attempt_count : ℕ
  pub next_retry_at : Option ℕ
  pub last_error : Option String
  pub kafka_partition : Option ℤ
  pub kafka_offset : Option ℤ
  pub created_at : ℕ
  pub queued_at : Option ℕ
  pub acked_at : Option ℕ
  pub updated_at : ℕ

abbrev pub Table : Type 0
Table = List OutboxRecord

-- `WHERE event_id = ?`
abbrev pub has_id : String → OutboxRecord → Bool
has_id id r = r.event_id == id

-- `SELECT * ... WHERE event_id = ?`, the first row
unfoldable pub find : String → Table → Option OutboxRecord
find id [] = none
find id (r ∷ rows) = if has_id id r then some r else find id rows

unfoldable pub exists_id : String → Table → Bool
exists_id id [] = false
exists_id id (r ∷ rows) = has_id id r || exists_id id rows

-- `executemany` of the INSERT, inside one transaction: `none` is the IntegrityError of the primary
-- key, at the first row whose id is there.
unfoldable pub insert_all : Table → List OutboxRecord → Option Table
unfolding exists_id
insert_all rows [] = some rows
insert_all rows (r ∷ rs) =
    let rest = insert_all (rows ++ r ∷ []) rs in if exists_id r.event_id rows then none else rest

-- UPDATE ... SET `change` WHERE `test`, and DELETE ... WHERE `test`
unfoldable pub update : (OutboxRecord → Bool) → (OutboxRecord → OutboxRecord) → Table → Table
update test change [] = []
update test change (r ∷ rows) = (if test r then change r else r) ∷ update test change rows

-- `executemany` of an UPDATE, with the count of rows that it changed.
unfoldable pub update_each {ℓ} :
    {A : Type ℓ}
    → (A → OutboxRecord → Bool)
    → (A → OutboxRecord → OutboxRecord)
    → List A
    → Table
    → Table × ℕ
unfolding update
update_each test change [] rows = (rows, 0)
update_each test change (p ∷ ps) rows =
    let (rows', n) = update_each test change ps (update (test p) (change p) rows) in
    (rows', count_by (test p) rows + n)

-- ORDER BY outbox_sequence ASC: a stable insertion sort.
unfoldable pub insert_by_sequence : OutboxRecord → Table → Table
insert_by_sequence r [] = r ∷ []
insert_by_sequence r (s ∷ rows) =
    let rest = insert_by_sequence r rows in
    if leb r.outbox_sequence s.outbox_sequence then r ∷ s ∷ rows else s ∷ rest

unfoldable pub order_by_sequence : Table → Table
unfolding insert_by_sequence
order_by_sequence [] = []
order_by_sequence (r ∷ rows) = insert_by_sequence r (order_by_sequence rows)
