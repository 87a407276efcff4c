-- ===== src/Outbox.antt =====
-- The durable outbox of Visualize/integration/kafka: the table (outbox_schema.py, outbox_store.py)
-- and the delivery worker (outbox_worker.py).
pub mod Table
pub mod Store
pub mod Updates
pub mod Worker
pub mod Delivery
