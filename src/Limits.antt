-- ===== src/Limits.antt =====
-- crates/schemaform/src/limits.rs: the checks of inputs against limits.
pub mod Types
pub mod Sizes
pub mod Walk
pub mod Metrics
pub mod Source
pub mod Compilation
pub mod Input
