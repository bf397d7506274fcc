-- ===== src/Arith/Strip.antt =====
-- src/interpreter/arithmetic.rs: `strip_and_validate`. A round of its loop is a `Piece`, and an index is the rest
-- from there.
use rust_bash.Prelude.{
  ℕ, zero, suc, ◌+◌, ◌/◌, ◌%◌, [], ◌∷◌, ◌++◌, Bool, true, false, not, ◌&&◌, ◌||◌, if◌then◌else◌,
  ◌==◌, ltb, length, Result, ok, err, ◌>>=◌,
}
use rust_bash.Prelude.Bytes.{Bytes, codes}
use rust_bash.Pattern.Class.{backslash, is_digit, is_alphabetic, is_alphanumeric}
use rust_bash.Brace.Sequence.{RustBashError, execution, out_of_fuel}
use rust_bash.Arith.Numbers.{span, parse_number, parse_base_n_value, Number}

pub data Piece : Type 0 where
  -- What is written, and what is left to read.
  emit : Bytes → Bytes → Piece
  -- The inside of double quotes, and what is behind them.
  quoted : Bytes → Bytes → Piece
  fail : RustBashError → Piece

abbrev pub refuse : Bytes → Piece
refuse message = fail (execution message)

abbrev pub is_arithmetic_whitespace : ℕ → Bool
is_arithmetic_whitespace c = c == b' ' || c == 9 || c == 10

abbrev pub is_ident : ℕ → Bool
is_ident c = c == b'_' || is_alphanumeric c

abbrev pub is_base_digit : ℕ → Bool
is_base_digit c = is_alphanumeric c || c == b'@' || c == b'_'

unfoldable pub contains : Bytes → ℕ → Bool
contains [] c = false
contains (d ∷ p) c = let rest = contains p c in d == c || rest

abbrev pub operator_chars : Bytes
operator_chars = codes "+-*/%&|^~!<>=?():[],"

-- A byte as a `char`, in UTF-8.
abbrev pub byte_as_char : ℕ → Bytes
byte_as_char c = if ltb c 128 then c ∷ [] else (0xC0 + c / 64) ∷ (0x80 + c % 64) ∷ []

abbrev pub unexpected : ℕ → Piece
unexpected c = refuse (codes "arithmetic: unexpected character `" ++ byte_as_char c ++ codes "`")

abbrev pub starts_with_zero : Bytes → Bool
starts_with_zero [] = false
starts_with_zero (c ∷ p) = c == b'0'

abbrev pub based : ℕ → Bytes → Bytes × Bytes → Piece
based base text (digits, rest) = elim (parse_base_n_value base digits) [
  | ok v ↦ emit (text ++ b'#' ∷ digits) rest
  | err e ↦ fail e
]

-- What may follow a number: a `.` is refused, and a `#` makes it a base.
unfoldable pub behind_number : Bool → ℕ → Bytes → Bytes → Piece
unfolding span parse_base_n_value
behind_number strict_arith n text [] = emit text []
behind_number strict_arith n text (c ∷ p) =
    if c == b'.'
    then refuse (codes "arithmetic: syntax error: invalid arithmetic operator")
    else if c == b'#'
    then (if strict_arith && (ltb 1 (length text) && starts_with_zero text)
        then refuse (codes "arithmetic: invalid base constant `" ++ text ++ codes "#`")
        else based n text (span is_base_digit p))
    else emit text (c ∷ p)

unfoldable pub number_piece : Bool → Number → Piece
unfolding behind_number
number_piece strict_arith (err e) = fail e
number_piece strict_arith (ok (n, (text, rest))) = behind_number strict_arith n text rest

-- The inside of double quotes up to the closing one; `skip` tells that the byte at hand is escaped.
unfoldable pub split_quoted : Bool → Bytes → Bytes × Bytes
split_quoted skip [] = ([], [])
split_quoted true (c ∷ p) = let rest = split_quoted false p in (c ∷ rest.0, rest.1)
split_quoted false (c ∷ p) =
    let rest = split_quoted (c == backslash) p in
    if c == b'"' then ([], p) else (c ∷ rest.0, rest.1)

unfoldable pub all_ident : Bytes → Bool
all_ident [] = true
all_ident (c ∷ p) = let rest = all_ident p in is_ident c && rest

-- `${name}`, where `p` is behind the brace.
abbrev pub braced : Bytes → Bytes × Bytes → Piece
braced p ([], after) = emit [] (b'{' ∷ p)
braced p (c ∷ inner, []) = emit [] (b'{' ∷ p)
braced p (c ∷ inner, close ∷ after) =
    if all_ident (c ∷ inner) then emit (c ∷ inner) after else emit [] (b'{' ∷ p)

abbrev pub emit_span : Bytes → Bytes → Bytes × Bytes → Piece
emit_span front back (text, rest) = emit (front ++ text ++ back) rest

unfoldable pub dollar_piece : Bytes → Piece
unfolding span all_ident
dollar_piece [] = emit [] []
dollar_piece (c ∷ p) =
    if c == b'{'
    then braced p (span (λ d. not (d == b'}')) p)
    else if c == b'_' || is_alphabetic c
    then emit_span [] [] (span is_ident (c ∷ p))
    else if is_digit c
    then emit_span (codes "__RB_ARITH_POS_") (codes "__") (span is_digit (c ∷ p))
    else if c == b'#'
    then emit (codes "__RB_ARITH_HASH__") p
    else if c == b'?'
    then emit (codes "__RB_ARITH_QUESTION__") p
    else emit [] (c ∷ p)

-- `[` with nothing but blanks before a `]`.
abbrev pub closes : Bytes → Bool
closes [] = false
closes (c ∷ p) = let rest = closes p in c == b']' || ((c == b' ' || c == 9) && rest)

abbrev pub empty_subscript : Bytes → Bool
empty_subscript [] = false
empty_subscript (c ∷ p) = c == b'[' && closes p

abbrev pub name_piece : Bytes × Bytes → Piece
name_piece (name, rest) =
    if empty_subscript rest then refuse (name ++ codes ": bad array subscript") else emit name rest

abbrev pub backslash_piece : Bytes → Piece
backslash_piece [] = refuse (codes "arithmetic: unexpected character `\\`")
backslash_piece (c ∷ p) =
    if c == b'$' then emit [] (c ∷ p) else refuse (codes "arithmetic: unexpected character `\\`")

abbrev pub quoted_piece : Bytes × Bytes → Piece
quoted_piece (inner, rest) = quoted inner rest

unfoldable pub next_piece : Bool → ℕ → Bytes → Piece
unfolding number_piece parse_number split_quoted dollar_piece span contains
next_piece strict_arith c p =
    if is_arithmetic_whitespace c
    then emit (c ∷ []) p
    else if is_digit c
    then number_piece strict_arith (parse_number (c ∷ p))
    else if c == b'\''
    then refuse (codes "arithmetic: syntax error: operand expected")
    else if c == b'"'
    then quoted_piece (split_quoted false p)
    else if c == b'$'
    then dollar_piece p
    else if c == backslash
    then backslash_piece p
    else if c == b'_' || is_alphabetic c
    then name_piece (span is_ident (c ∷ p))
    else if contains operator_chars c
    then emit (c ∷ []) p
    else unexpected c

unfoldable pub strip_loop : Bool → ℕ → Bytes → Result Bytes RustBashError
unfolding next_piece
strip_loop strict_arith zero s = err out_of_fuel
strip_loop strict_arith (suc fuel) [] = ok []
strip_loop strict_arith (suc fuel) (c ∷ p) = elim (next_piece strict_arith c p) [
  | emit out rest ↦ strip_loop strict_arith fuel rest >>= λ more. ok (out ++ more)
  | quoted inner rest ↦ strip_loop strict_arith fuel inner >>= λ out.
      strip_loop strict_arith fuel rest >>= λ more. ok (out ++ more)
  | fail e ↦ err e
]

unfoldable pub strip_and_validate : Bytes → Bool → Result Bytes RustBashError
unfolding strip_loop
strip_and_validate input strict_arith = strip_loop strict_arith (suc (length input)) input
