-- ===== src/Io.antt =====
-- crates/bethkit-io: byte-level input.
pub mod Bytes
pub mod Cursor
