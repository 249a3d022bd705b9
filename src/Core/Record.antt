-- ===== src/Core/Record.antt =====
-- crates/bethkit-core/src/record.rs: record headers, records and their subrecords. The shared buffer
-- of a borrowed payload is its bytes; the cells that cache a result are not part of the model.
pub mod Data
pub mod Header
pub mod Subrecords
pub mod Taken
pub mod Ranges
pub mod Lookup
pub mod Text
pub mod Answers
