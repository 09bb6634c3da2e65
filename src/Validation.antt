-- ===== src/Validation.antt =====
-- crates/schemaform/src/validation.rs: the bounds of `minItems` and `maxItems`, and the findings.
pub mod Cardinality
pub mod Findings
