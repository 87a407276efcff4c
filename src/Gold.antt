-- ===== src/Gold.antt =====
-- de/gold_runtime: the runtime that turns the rows of the silver tables into windows.
pub mod Windows
