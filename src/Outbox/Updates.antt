-- ===== src/Outbox/Updates.antt =====
-- The status updates of `KafkaOutboxStore` in Visualize/integration/kafka/outbox_store.py, each one
-- transaction of `_write_batch`. An error of SQLite rolls the transaction back and is raised.
use smart_data_models.Prelude.{
  ℕ, ◌+◌, ◌-◌, ◌*◌, String, ℤ, Bool, true, false, ◌&&◌, Option, none, some, List, [], ◌∷◌, leb, ltb,
  if◌then◌else◌, string_key, keep, count_by, take, clip,
}
use smart_data_models.Outbox.Table.{
  Status, outboxed, queued, acked, failed_retryable, failed_permanent, is_status, OutboxRecord,
  Table, has_id, update_each, order_by_sequence,
}
use smart_data_models.Outbox.Store.{OutboxStore}

-- The count of changed rows, or the error that is raised.
pub data Written : Type 0 where
  wrote : ℕ → Written
  raised : String → Written

unfoldable pub write_batch {ℓ} :
    {A : Type ℓ}
    → (A → OutboxRecord → Bool)
    → (A → OutboxRecord → OutboxRecord)
    → OutboxStore
    → Option String
    → List A
    → OutboxStore × Written
unfolding update_each
write_batch test change s error [] = (s, wrote 0)
write_batch test change s (some e) (p ∷ ps) = (s, raised e)
write_batch test change s none (p ∷ ps) =
    let (rows, n) = update_each test change (p ∷ ps) s.rows in (record s { rows = rows }, wrote n)

-- COALESCE(last_error, ...)
abbrev pub or_else : Option String → String → Option String
or_else none default = some default
or_else (some e) default = some e

unfoldable pub requeue : ℕ → OutboxRecord → OutboxRecord
requeue now r = record r {
  status = failed_retryable;
  next_retry_at = some now;
  updated_at = now;
  last_error = or_else r.last_error "orphaned QUEUED on restart";
}

unfoldable pub recover_orphaned_queued : OutboxStore → ℕ → Option String → OutboxStore × Written
unfolding write_batch requeue
recover_orphaned_queued s now error =
    write_batch (λ (p : Unit {0}) r. is_status queued r.status) (λ p r. requeue now r) s error
      (tt ∷ [])

-- `next_retry_at IS NULL OR next_retry_at <= ?`
abbrev pub is_due : ℕ → Option ℕ → Bool
is_due now none = true
is_due now (some t) = leb t now

abbrev pub is_redriven : Status → Bool
is_redriven outboxed = true
is_redriven failed_retryable = true
is_redriven queued = false
is_redriven acked = false
is_redriven failed_permanent = false

unfoldable pub is_eligible : ℕ → OutboxRecord → Bool
is_eligible now r = is_redriven r.status && is_due now r.next_retry_at

unfoldable pub fetch_eligible : OutboxStore → ℕ → ℕ → List OutboxRecord
unfolding is_eligible order_by_sequence
fetch_eligible s limit now = take limit (order_by_sequence (keep (is_eligible now) s.rows))

unfoldable pub to_queued : ℕ → OutboxRecord → OutboxRecord
to_queued now r = record r {
  status = queued;
  queued_at = some now;
  updated_at = now;
  attempt_count = r.attempt_count + 1;
}

unfoldable pub mark_queued_batch :
    OutboxStore → ℕ → Option String → List String → OutboxStore × Written
unfolding write_batch to_queued
mark_queued_batch s now error ids =
    write_batch (λ (id : String) r. has_id id r && is_redriven r.status) (λ id r. to_queued now r) s
      error ids

-- (event_id, partition, offset)
abbrev pub Ack : Type 0
Ack = String × ℤ × ℤ

unfoldable pub to_acked : ℕ → Ack → OutboxRecord → OutboxRecord
to_acked now ack r = record r {
  status = acked;
  kafka_partition = some ack.1;
  kafka_offset = some ack.2;
  acked_at = some now;
  updated_at = now;
  last_error = none;
}

unfoldable pub mark_acked_batch : OutboxStore → ℕ → Option String → List Ack → OutboxStore × Written
unfolding write_batch to_acked
mark_acked_batch s now error acks =
    write_batch (λ (a : Ack) r. has_id a.0 r) (λ a r. to_acked now a r) s error acks

-- (event_id, error, next_retry_at)
abbrev pub Failure : Type 0
Failure = String × String × ℕ

unfoldable pub to_failed_retryable : ℕ → Failure → OutboxRecord → OutboxRecord
to_failed_retryable now f r = record r {
  status = failed_retryable;
  last_error = some (clip 2000 f.1);
  next_retry_at = some f.2;
  updated_at = now;
}

unfoldable pub mark_failed_retryable_batch :
    OutboxStore → ℕ → Option String → List Failure → OutboxStore × Written
unfolding write_batch to_failed_retryable
mark_failed_retryable_batch s now error failures =
    write_batch (λ (f : Failure) r. has_id f.0 r) (λ f r. to_failed_retryable now f r) s error
      failures

-- (event_id, error)
abbrev pub Defect : Type 0
Defect = String × String

unfoldable pub to_failed_permanent : ℕ → Defect → OutboxRecord → OutboxRecord
to_failed_permanent now d r = record r {
  status = failed_permanent;
  last_error = some (clip 2000 d.1);
  updated_at = now;
  next_retry_at = none;
}

unfoldable pub mark_failed_permanent_batch :
    OutboxStore → ℕ → Option String → List Defect → OutboxStore × Written
unfolding write_batch to_failed_permanent
mark_failed_permanent_batch s now error defects =
    write_batch (λ (d : Defect) r. has_id d.0 r) (λ d r. to_failed_permanent now d r) s error
      defects

-- `status = 'ACKED' AND acked_at IS NOT NULL AND acked_at < ?`
abbrev pub acked_before : ℕ → Option ℕ → Bool
acked_before cutoff none = false
acked_before cutoff (some t) = ltb t cutoff

unfoldable pub is_expired : ℕ → OutboxRecord → Bool
is_expired cutoff r = is_status acked r.status && acked_before cutoff r.acked_at

-- Microseconds in a day.
abbrev pub day_us : ℕ
day_us = 86400000000

-- DELETE of the first `limit` expired rows, with their count. SQLite may pick any rows within LIMIT;
-- the model picks the first ones.
unfoldable pub delete_expired : ℕ → ℕ → Table → Table × ℕ
unfolding is_expired
delete_expired cutoff limit [] = ([], 0)
delete_expired cutoff limit (r ∷ rows) =
    let hit = is_expired cutoff r && ltb 0 limit in
    let (rest, n) = delete_expired cutoff (if hit then limit - 1 else limit) rows in
    if hit then (rest, n + 1) else (r ∷ rest, n)

unfoldable pub cleanup_acked : OutboxStore → ℕ → Option String → ℕ → ℕ → OutboxStore × Written
unfolding delete_expired
cleanup_acked s now none older_than_days batch_size =
    let (rows, n) = delete_expired (now - older_than_days * day_us) batch_size s.rows in
    (record s { rows = rows }, wrote n)
cleanup_acked s now (some e) older_than_days batch_size = (s, raised e)

-- SELECT status, COUNT(*): the count of one status.
unfoldable pub count_by_status : OutboxStore → Status → ℕ
count_by_status s status = count_by (λ (r : OutboxRecord). is_status status r.status) s.rows
