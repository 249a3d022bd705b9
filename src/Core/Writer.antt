-- ===== src/Core/Writer.antt =====
-- crates/bethkit-core/src/writer.rs: the plugin writer. `write_to` appends to the buffer.
pub mod Data
pub mod Groups
pub mod Plugin
pub mod Eslify
pub mod Renumber
pub mod Slots
pub mod Rewritten
pub mod Fates
pub mod Light
pub mod NextId
pub mod RoundTrip
mod Runs
mod PluginRuns
