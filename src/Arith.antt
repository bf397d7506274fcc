-- ===== src/Arith.antt =====
-- src/interpreter/arithmetic.rs: `$((…))`. `Word` has the operators on `i64`, `Numbers`, `Strip` and `Keys` read the
-- text before the parser, `Eval` evaluates, and the others prove what their names say.
pub mod Word
pub mod Division
pub mod Power
pub mod Syntax
pub mod Store
pub mod Numbers
pub mod Digits
pub mod Strip
pub mod Clean
pub mod Eval
pub mod Keys
pub mod Assign
pub mod Exact
