-- ===== src/Core/Plugin.antt =====
-- crates/bethkit-core/src/plugin.rs: plugin files.
pub mod Data
pub mod Parse
pub mod Tiles
pub mod Runs
