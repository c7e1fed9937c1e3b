-- ===== src/Review/Outcome.antt =====
-- What the operator's flows have done when they return.
pub mod Counts
pub mod Purged
pub mod Final
