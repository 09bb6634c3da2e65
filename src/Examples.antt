-- ===== src/Examples.antt =====
-- Concrete inputs: an implementation of JSON Pointers that meets what the development supposes of
-- `jsonptr`, a small form, and the theorems at them.
pub mod Pointers
pub mod Forms
pub mod Codes
mod Checks
mod Witnesses
