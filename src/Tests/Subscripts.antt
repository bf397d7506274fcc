-- ===== src/Tests/Subscripts.antt =====
-- Runs of the passes of `eval_arithmetic` of src/interpreter/arithmetic.rs that stand before the parser.
use rust_bash.Prelude.{◌≡◌, refl, [], ◌∷◌, ◌++◌, Bool, true, false, some, ok, err, Result}
use rust_bash.Prelude.Bytes.{Bytes, codes, beq}
use rust_bash.Brace.Sequence.{to_decimal}
use rust_bash.Arith.Word.{add}
use rust_bash.Arith.Syntax.{ArithmeticExpr, literal, binary_op}
use rust_bash.Arith.Keys.{take_quoted_key, substitute_quoted_assoc_subscripts, eval_arithmetic}
use rust_bash.Arith.Keys.Laws.{escape, take_quoted_key-escape}
use rust_bash.Tests.Arithmetic.{shell, at_start}

abbrev is_m : Bytes → Bool
is_m name = beq name (codes "m")

substitute_run :
    substitute_quoted_assoc_subscripts is_m (codes "m[ 'k+1' ] + n['x']")
    ≡ (codes "m[__RB_ASSOC_KEY_0__] + n['x']", (codes "__RB_ASSOC_KEY_0__", codes "k+1") ∷ [])
unfolding substitute_quoted_assoc_subscripts beq to_decimal
substitute_run = refl

-- A parser that reads one text.
abbrev sum_only : Bytes → Result ArithmeticExpr Bytes
sum_only text = elim (beq text (codes "1 + 2")) [
  | true ↦ ok (binary_op add (literal 1) (literal 2))
  | false ↦ err (codes "?")
]

evaluated_run : eval_arithmetic shell sum_only false (codes "\"1 + 2\"") at_start ≡ (ok 3, at_start)
unfolding eval_arithmetic beq
evaluated_run = refl

take_quoted_key-escape_example :
    take_quoted_key b'"' (escape (codes "a$b") ++ b'"' ∷ b']' ∷ codes "+1")
    ≡ some (codes "a$b", codes "+1")
take_quoted_key-escape_example = take_quoted_key-escape (codes "a$b") (codes "+1")
