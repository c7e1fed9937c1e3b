-- ===== src/Api.antt =====
-- The services of the HTTP API that write (src/api): triage and the blocklist, each with the table
-- of idempotency keys.
pub mod Keys
pub mod Triage
pub mod Blocklist
