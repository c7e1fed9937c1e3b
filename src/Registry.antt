-- ===== src/Registry.antt =====
-- The SQLite registry, src/nightfall_photo_ingress/domain/registry.py: its tables, its transactions
-- and the methods of `class Registry`.
pub mod Schema
pub mod Conn
pub mod Files
pub mod Lifecycle
pub mod Pairs
pub mod HashCache
pub mod WellFormed
pub mod Preserve
pub mod Ops
pub mod Transitions
pub mod Migrations
pub mod Transaction
