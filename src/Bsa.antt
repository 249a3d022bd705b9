-- ===== src/Bsa.antt =====
-- crates/bethkit-bsa: the hashes of archives.
pub mod Hash
pub mod Crc
pub mod Sdbm
pub mod Words
pub mod Split
mod Runs
