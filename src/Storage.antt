-- ===== src/Storage.antt =====
-- The storage helpers of src/nightfall_photo_ingress/domain/storage.py.
pub mod Render
pub mod Commit
pub mod Lint
pub mod Names
pub mod Durable
pub mod Sound
