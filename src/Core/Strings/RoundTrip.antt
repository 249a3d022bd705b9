-- ===== src/Core/Strings/RoundTrip.antt =====
-- A table that is written and read back has the same entries.
pub mod Wire
pub mod Fetch
pub mod Reading
pub mod Whole
