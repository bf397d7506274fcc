-- ===== src/Arith/Clean/Text.antt =====
-- src/interpreter/arithmetic.rs: the whole text that `strip_and_validate` makes.
use rust_bash.Prelude.Bytes.{Bytes}
