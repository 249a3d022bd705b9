-- ===== src/Core/Strings.antt =====
-- crates/bethkit-core/src/strings.rs: the localisation string tables. A borrowed slice is the range
-- that it covers, a mapped file its bytes, and a writer the bytes written to it. Opening files and
-- the paths of the sibling files are not modelled.
pub mod Table
pub mod Alloc
pub mod Directory
pub mod Payload
pub mod Write
pub mod RoundTrip
mod Runs
