-- ===== src/Growth.antt =====
-- How capacities grow and shrink.
pub mod Policy
pub mod Window
pub mod Contents
