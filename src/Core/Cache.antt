-- ===== src/Core/Cache.antt =====
-- crates/bethkit-core/src/cache.rs: the records of several plugins, of which the last one wins.
pub mod Data
pub mod Index
pub mod Wins
pub mod EditorIds
mod Runs
