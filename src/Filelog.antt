-- ===== src/Filelog.antt =====
-- The package filelog.
pub mod Block
pub mod File
pub mod Loops
