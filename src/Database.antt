-- ===== src/Database.antt =====
-- The package database.
pub mod GroupCache
pub mod Redis
pub mod Store
