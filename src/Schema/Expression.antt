-- ===== src/Schema/Expression.antt =====
-- crates/bethkit-schema/src/expression.rs: expressions, their evaluation on a budget of operations
-- and, from package.rs, their validation.
pub mod Data
pub mod Evaluate
pub mod Budget
pub mod Least
pub mod Validate
pub mod Range
pub mod Sound
pub mod Lookup
mod Runs
