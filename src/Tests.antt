-- ===== src/Tests.antt =====
-- The theorems at concrete inputs, and runs of the definitions on some.
mod Data
mod Texts
mod Registry
mod Files
mod Flows
mod Responses
mod Services
mod Batches
mod Rules
mod Polls
mod Imports
mod Drifts
