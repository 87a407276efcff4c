-- ===== src/Tests.antt =====
-- Tests of the model on concrete inputs, and the theorems applied at such inputs.
mod OffsetTracker
mod Retry
mod NodeBuffer
mod Outbox
mod Control
mod Gold
mod Silver
mod RawLayer
mod ProjectorStore
mod ProjectorCore
mod Tracker
mod Buffers
