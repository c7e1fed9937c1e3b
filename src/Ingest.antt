-- ===== src/Ingest.antt =====
-- The ingest decision engine (src/nightfall_photo_ingress/domain/ingest.py and journal.py).
pub mod Candidate
pub mod Journal
pub mod Policy
pub mod Process
pub mod Identity
pub mod Batch
pub mod Replay
pub mod Sound
pub mod Recovery
pub mod Drift
