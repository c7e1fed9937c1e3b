-- ===== src/Onedrive.antt =====
-- The OneDrive adapter (src/nightfall_photo_ingress/adapters/onedrive): the retry policy, the
-- download of one file, the requests to Graph, the staging of candidates, the poll of an account and what is made of it, and
-- the reduction of delta pages to candidates.
pub mod Retry
pub mod Download
pub mod Graph
pub mod Staging
pub mod Account
pub mod Poll
pub mod Single
pub mod Delta
