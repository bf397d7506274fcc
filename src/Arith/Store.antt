-- ===== src/Arith/Store.antt =====
-- src/interpreter/arithmetic.rs: the variables, as the evaluator uses them. Behind each operation are the shell's
-- state and functions of src/interpreter/mod.rs. A written value stands for its `to_string()`.
use rust_bash.Prelude.{ℕ, Bool, Result}
use rust_bash.Prelude.Bytes.{Bytes}
use rust_bash.Brace.Sequence.{RustBashError}

pub record Store (State : Type 0) : Type 0 where
  pub resolve_nameref_or_self : State → Bytes → Bytes
  pub is_assoc_array : State → Bytes → Bool
  pub nounset : State → Bool
  pub contains_key : State → Bytes → Bool
  pub read_var : State → Bytes → Result ℕ RustBashError × State
  pub set_variable : State → Bytes → ℕ → Result (Unit {0}) RustBashError × State
  pub read_assoc_element : State → Bytes → Bytes → Result ℕ RustBashError × State
  pub set_assoc_element : State → Bytes → Bytes → ℕ → Result (Unit {0}) RustBashError × State
  pub read_indexed_element : State → Bytes → ℕ → Result ℕ RustBashError × State
  pub write_indexed_element : State → Bytes → ℕ → ℕ → Result (Unit {0}) RustBashError × State
