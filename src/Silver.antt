-- ===== src/Silver.antt =====
-- de/silver: the layer that turns the bronze events into facts.
pub mod Ledger
