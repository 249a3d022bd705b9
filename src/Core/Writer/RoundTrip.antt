-- ===== src/Core/Writer/RoundTrip.antt =====
-- What the writer serialises is parsed back.
pub mod Rounds
pub mod Text
pub mod Turns
pub mod Block
pub mod Wire
pub mod Whole
