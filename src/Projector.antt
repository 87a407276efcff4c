-- ===== src/Projector.antt =====
-- The Orion projector (Visualize/integration/projector) and the trackers that share its design.
pub mod OffsetTracker
pub mod Retry
pub mod Tables
pub mod Store
pub mod Event
pub mod NodeBuffer
pub mod Core
