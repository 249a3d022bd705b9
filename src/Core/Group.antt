-- ===== src/Core/Group.antt =====
-- crates/bethkit-core/src/group.rs: groups of records, which nest.
pub mod Data
pub mod Parse
pub mod Moves
pub mod Headers
pub mod Tiles
pub mod Iterate
pub mod Walk
pub mod Types
mod Runs
