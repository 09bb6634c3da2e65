-- ===== src/Resources.antt =====
-- crates/schemaform/src/resources.rs: the fragments and the pointers of the references between schemas.
pub mod Fragments
pub mod Pointers
