-- ===== src/Control.antt =====
-- Visualize/control and Visualize/runtime/command_queue.py: how a command of the dashboard reaches the
-- simulation thread.
pub mod Command
pub mod Registry
pub mod Queue
pub mod Tracker
pub mod Naming
pub mod Intake
