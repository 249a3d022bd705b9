-- ===== src/Core.antt =====
-- crates/bethkit-core: plugins, records, groups, string tables and the load order.
pub mod Signature
pub mod Types
pub mod Error
pub mod LoadOrder
pub mod Strings
pub mod Record
pub mod Group
pub mod Plugin
pub mod Patcher
pub mod Cache
pub mod Writer
