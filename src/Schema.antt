-- ===== src/Schema.antt =====
-- crates/bethkit-schema: the expressions of schema conditions.
pub mod Error
pub mod Expression
