-- ===== src/Outbox/Delivery.antt =====
-- Any sequence of the writing calls of `KafkaOutboxStore` (Visualize/integration/kafka/outbox_store.py).
pub mod Retention
pub mod NoLoss
pub mod Order
pub mod Fifo
use smart_data_models.Prelude.{ℕ, String, Option, none, List, [], ◌∷◌, ◌≡◌, ◌⊎◌}
use smart_data_models.Outbox.Store.{
  OutboxStore, OutboxRow, Machine, append_cycle, append_run_started,
}
use smart_data_models.Outbox.Updates.{
  Ack, Failure, Defect, recover_orphaned_queued, mark_queued_batch, mark_acked_batch,
  mark_failed_retryable_batch, mark_failed_permanent_batch, cleanup_acked,
}

-- A call, with the clock's reading and the error of SQLite, if any.
pub data Call : Type 0 where
  cycle : Machine → List OutboxRow → Call
  start : Machine → OutboxRow → Call
  recover : ℕ → Option String → Call
  queue : ℕ → Option String → List String → Call
  ack : ℕ → Option String → List Ack → Call
  fail : ℕ → Option String → List Failure → Call
  defect : ℕ → Option String → List Defect → Call
  clean : ℕ → Option String → ℕ → ℕ → Call

pub step : OutboxStore → Call → OutboxStore
step s (cycle m rs) = (append_cycle s m rs).0
step s (start m r) = (append_run_started s m r).0
step s (recover now error) = (recover_orphaned_queued s now error).0
step s (queue now error ids) = (mark_queued_batch s now error ids).0
step s (ack now error acks) = (mark_acked_batch s now error acks).0
step s (fail now error failures) = (mark_failed_retryable_batch s now error failures).0
step s (defect now error defects) = (mark_failed_permanent_batch s now error defects).0
step s (clean now error days batch) = (cleanup_acked s now error days batch).0

pub run : OutboxStore → List Call → OutboxStore
run s [] = s
run s (c ∷ cs) = run (step s c) cs
