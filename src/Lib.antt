-- ===== src/Lib.antt =====
-- The delivery path of the smart traffic system, and parts of what stands around it. A simulation run
-- writes its events to a durable outbox; the outbox delivers them to Kafka; the projector applies them
-- to Orion; the silver and gold layers turn the raw events into facts and windows; and commands of the
-- dashboard reach the simulation through a registry and a queue.
--
-- Prelude holds what the modules share: tests on native numbers, lists, and dictionaries in insertion
-- order (Prelude/Maps, with keys distinct in Prelude/Maps/Distinct). Outbox models
-- Visualize/integration/kafka: Table (outbox_schema.py and the SQL statements), Store and Updates (class
-- KafkaOutboxStore of outbox_store.py: the appends, and the fetch with the status updates), Worker
-- (class OutboxDeliveryWorker of outbox_worker.py), and Delivery (any sequence of the store's writing
-- calls). Projector models Visualize/integration/projector: OffsetTracker (offset_tracker.py, class
-- OffsetTracker), Event and NodeBuffer (node_buffer.py, classes BufferedEvent, NodeBuffer and
-- NodeBufferManager), Retry (retry.py, class OrionRetryManager), Tables and Store (schema.py, and class
-- ProjectorStore of store.py), Core/Cache (runtime_cache.py), and Core (core.py, class OrionProjector):
-- Core/State (the object, and calls that may raise), Core/Marks (_maybe_commit and the _mark_ methods),
-- Core/Screen and Core/Apply (_apply_node_buffer), Core/Process and Core/RunStart (process_record),
-- Core/Tick (tick), Core/Recovery (the settings, recover, the lag probe, readiness_ok), Core/Poison
-- (poison.py, and the step for one record of Visualize/tools/projector_live_consumer.py); and over them
-- Core/Advances (what a call keeps, with a rule for each way to build one), Core/Onward, Core/Progress,
-- Core/Loop and Core/Requests (any sequence of calls), Core/Commits, Core/Refusal and Core/DeadLetters.
-- Control models Visualize/control: Command (models.py, runtime_state.py), Registry
-- (command_registry.py), Naming and Intake (command_intake.py), Queue
-- (Visualize/runtime/command_queue.py), and Tracker (command_executor.py). Gold models de/gold_runtime:
-- Windows (window_scheduler.py). Silver models de/silver: Ledger (batch_ledger.py). RawLayer models the
-- offset trackers of de/kafka_raw and de/bronze (Offsets), and de/kafka_raw/batch_buffer.py (Buffers).
-- Tests holds tests and the theorems applied at concrete inputs.
--
-- A method that changes its object returns the new record, with its answer beside it; an exception is a
-- value of the answer. The calls of Core stand in one monad of state and exceptions, with a list of the
-- ends of the writes to come; what was written before an exception stays written. A call reads each of
-- its clocks once. Events have passed the validator: their ids, hashes and times are there. Readings of
-- clocks, random draws, free disk space, the errors of SQLite and the answers of the Kafka producer are
-- arguments. json.loads and the look-ups of configuration/config.py are parameters. A dict is a list of
-- pairs in insertion order, and a table the list of its rows in the order of insertion.
--
-- Times are whole numbers: milliseconds of the monotonic clock in node_buffer.py and batch_buffer.py,
-- microseconds in retry.py, the outbox and the control commands, nanoseconds of simulation time in
-- store.py and core.py, one unit of it in window_scheduler.py. The loop of offset_tracker.py runs on
-- fuel: one round for each number up to the greatest completed offset, which is enough, since the loop
-- stops at the first offset that is not completed. The loop of candidate_windows runs on fuel: a round
-- for each window up to the watermark and two more.
--
-- Not modelled: threads, locks and sleeps (a delivery callback, a poll and a drain are steps of their
-- own); connections, pragmas and migrations of SQLite; logs, latencies and metrics; the envelope and the
-- producer of the dead letters (dlq.py); the rewriting of ids (shadow_mapper.py), which is a function
-- that Core is given; the simulation, the Orion client, the rest of the data layers and the user
-- interfaces.
pub mod Prelude
pub mod Projector
pub mod Outbox
pub mod Control
pub mod Gold
pub mod Silver
pub mod RawLayer
mod Tests
