-- ===== src/Brace.antt =====
-- src/interpreter/brace.rs: brace expansion. `Scan`, `Sequence` and `Expand` model it, and the others prove
-- what their names say.
pub mod Scan
pub mod Sequence
pub mod Expand
pub mod Slices
pub mod Limit
pub mod Fuel
pub mod Ranges
