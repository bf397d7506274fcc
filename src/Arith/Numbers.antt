-- ===== src/Arith/Numbers.antt =====
-- src/interpreter/arithmetic.rs: `parse_base_n_value` and `parse_number`. `from_str_radix` and `parse` of the
-- standard library read digits that the caller has checked, and fail above `i64::MAX`.
use Prim.Native.String.{String}
use rust_bash.Prelude.{
  ℕ, true, false, ◌+◌, ◌-◌, ◌*◌, ◌^◌, Bool, ◌&&◌, ◌||◌, Option, none, some, if◌then◌else◌, ◌==◌,
  ltb, leb, [], ◌∷◌, ◌++◌, Result, ok, err, ◌>>=◌, length,
}
use rust_bash.Prelude.Bytes.{Bytes, codes}
use rust_bash.Pattern.Class.{is_digit, is_lower, is_upper, is_hexdigit}
use rust_bash.Brace.Sequence.{RustBashError, execution}
use rust_bash.Arith.Word.{wrapping_add, wrapping_mul}
use rust_bash.Arith.Syntax.{number_to_string}

-- The `match ch`; only ASCII letters, digits, `@` and `_` come here.
unfoldable pub digit_value : ℕ → ℕ → Option ℕ
digit_value base c =
    if is_digit c
    then some (c - b'0')
    else if is_lower c
    then some (c - b'a' + 10)
    else if is_upper c
    then some (if leb base 36 then c - b'A' + 10 else c - b'A' + 36)
    else if c == b'@'
    then some 62
    else if c == b'_'
    then some 63
    else none

abbrev pub too_great : ℕ → Bytes → Result ℕ RustBashError
too_great base digits = err (
    execution (
      codes "arithmetic: value too great for base: "
      ++ digits
      ++ codes " (base "
      ++ number_to_string base
      ++ codes ")"))

-- The loop, from a result, over the digits that are left.
unfoldable pub base_n_loop : ℕ → Bytes → ℕ → Bytes → Result ℕ RustBashError
unfolding digit_value wrapping_add wrapping_mul
base_n_loop base digits result [] = ok result
base_n_loop base digits result (c ∷ p) = elim (digit_value base c) [
  | none ↦ too_great base digits
  | some d ↦ elim (leb base d) [
    | true ↦ too_great base digits
    | false ↦ base_n_loop base digits (wrapping_add (wrapping_mul result base) d) p
  ]
]

abbrev pub no_digits : ℕ → Result ℕ RustBashError
no_digits base =
    err (
      execution
        (codes "arithmetic: invalid base constant `" ++ number_to_string base ++ codes "#`"))

unfoldable pub parse_base_n_value : ℕ → Bytes → Result ℕ RustBashError
unfolding base_n_loop
parse_base_n_value base digits =
    if leb 2 base && leb base 64
    then (if length digits == 0 then no_digits base else base_n_loop base digits 0 digits)
    else err (execution (codes "arithmetic: invalid arithmetic base: " ++ number_to_string base))

-- The longest front whose bytes pass, and the rest.
unfoldable pub span : (ℕ → Bool) → Bytes → Bytes × Bytes
span passes [] = ([], [])
span passes (c ∷ p) =
    let rest = span passes p in if passes c then (c ∷ rest.0, rest.1) else ([], c ∷ p)

-- `from_str_radix` without its bound, from a value.
unfoldable pub radix_value : ℕ → ℕ → Bytes → Option ℕ
unfolding digit_value
radix_value base n [] = some n
radix_value base n (c ∷ p) = elim (digit_value base c) [
  | none ↦ none
  | some d ↦ elim (leb base d) [ true ↦ none | false ↦ radix_value base (n * base + d) p ]
]

abbrev pub bounded : Bytes → Option ℕ → Result ℕ RustBashError
bounded message none = err (execution message)
bounded message (some n) = if ltb n (2 ^ 63) then ok n else err (execution message)

abbrev pub message : String → Bytes → Bytes
message text digits = codes text ++ digits ++ codes "`"

-- A number is its value, its text and what is behind.
abbrev pub Number : Type 0
Number = Result (ℕ × (Bytes × Bytes)) RustBashError

abbrev pub hex_number : ℕ → ℕ → Bytes × Bytes → Number
hex_number c x ([], rest) = err (execution (codes "arithmetic: invalid hex number"))
hex_number c x (d ∷ p, rest) =
    bounded (message "arithmetic: invalid hex number `0x" (d ∷ p)) (radix_value 16 0 (d ∷ p))
    >>= λ n. ok (n, (c ∷ x ∷ d ∷ p, rest))

abbrev pub digits_number : ℕ → String → Bytes × Bytes → Number
digits_number base text (digits, rest) =
    bounded (message text digits) (radix_value base 0 digits) >>= λ n. ok (n, (digits, rest))

abbrev pub is_x : ℕ → Bool
is_x c = c == b'x' || c == b'X'

-- Only on a text that starts with a digit.
unfoldable pub parse_number : Bytes → Number
unfolding span radix_value
parse_number [] = ok (0, ([], []))
parse_number (c ∷ []) =
    digits_number (if c == b'0' then 8 else 10)
      (if c == b'0'
        then "arithmetic: invalid octal number `"
        else "arithmetic: invalid decimal number `")
      (span is_digit (c ∷ []))
parse_number (c ∷ x ∷ p) =
    if c == b'0'
    then (if is_x x
        then hex_number c x (span is_hexdigit p)
        else digits_number 8 "arithmetic: invalid octal number `" (span is_digit (c ∷ x ∷ p)))
    else digits_number 10 "arithmetic: invalid decimal number `" (span is_digit (c ∷ x ∷ p))
