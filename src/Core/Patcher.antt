-- ===== src/Core/Patcher.antt =====
-- crates/bethkit-core/src/patcher.rs, patcher_header.rs: a parsed plugin is written again with edits.
-- The writer is a `Vec<u8>`, whose writes do not fail.
pub mod Data
pub mod Order
pub mod Marks
pub mod Write
pub mod Totals
pub mod Payload
pub mod WriteTo
pub mod Headers
pub mod Walk
pub mod Verbatim
pub mod Covers
pub mod Skips
pub mod Untouched
mod Runs
pub mod Accepted
pub mod Counts
