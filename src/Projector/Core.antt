-- ===== src/Projector/Core.antt =====
-- Visualize/integration/projector/core.py: `OrionProjector`, which takes the records of Kafka to Orion
-- and keeps the ledger, the entity states and the commits.
pub mod Cache
pub mod State
pub mod Marks
pub mod Screen
pub mod Apply
pub mod Process
pub mod RunStart
pub mod Tick
pub mod Recovery
pub mod Poison
pub mod Advances
pub mod Onward
pub mod Progress
pub mod Loop
pub mod Requests
pub mod Commits
pub mod Refusal
pub mod DeadLetters
