-- ===== src/Form.antt =====
-- crates/schemaform/src/engine.rs: the form engine.
pub mod Definition
pub mod State
pub mod Arrays
pub mod Create
pub mod Lookup
pub mod Parsing
pub mod Edits
pub mod Structure
pub mod Findings
pub mod Lifecycle
pub mod Submission
pub mod Sessions
pub mod Host
pub mod Toggles
pub mod Views
