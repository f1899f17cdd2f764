-- ===== src/Wire.antt =====
-- The package wire: addresses, message bodies, headers and messages, and their bytes.
pub mod Io
pub mod Addr
pub mod Body
pub mod Message
