-- ===== src/Tests/Literals.antt =====
-- Runs of `strip_and_validate` and of the readers of numbers of src/interpreter/arithmetic.rs.
use rust_bash.Prelude.{◌≡◌, refl, ◌%◌, ◌^◌, [], ◌∷◌, map, false, ok, err, arith}
use rust_bash.Prelude.Bytes.{codes}
use rust_bash.Brace.Sequence.{execution}
use rust_bash.Arith.Numbers.{parse_base_n_value, parse_number}
use rust_bash.Arith.Digits.{digit_char, value, parse_base_n_value-digit_char}
use rust_bash.Arith.Strip.{strip_and_validate}

hex_run : parse_number (codes "0x1F+1") ≡ ok (31, (codes "0x1F", codes "+1"))
unfolding parse_number
hex_run = refl

octal_run :
    parse_number (codes "08") ≡ err (execution (codes "arithmetic: invalid octal number `08`"))
unfolding parse_number
octal_run = refl

base_run : parse_base_n_value 64 (codes "Z@") ≡ ok 3966
unfolding parse_base_n_value
base_run = refl

dollar_run :
    strip_and_validate (codes "${x} + \"1*$2\"") false ≡ ok (codes "x + 1*__RB_ARITH_POS_2__")
unfolding strip_and_validate
dollar_run = refl

subscript_run :
    strip_and_validate (codes "a[ ]") false ≡ err (execution (codes "a: bad array subscript"))
unfolding strip_and_validate
subscript_run = refl

parse_base_n_value-digit_char_example :
    parse_base_n_value 16 (map digit_char (15 ∷ 10 ∷ [])) ≡ ok (value 16 0 (15 ∷ 10 ∷ []) % 2 ^ 64)
parse_base_n_value-digit_char_example =
    parse_base_n_value-digit_char 16 15 (10 ∷ []) (omega arith) (omega arith)
      (omega arith, (omega arith, tt))
