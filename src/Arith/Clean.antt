-- ===== src/Arith/Clean.antt =====
-- src/interpreter/arithmetic.rs: what `strip_and_validate` lets through.
pub mod Pieces
pub mod Text
use rust_bash.Prelude.{
  ◌≡◌, refl, ℕ, zero, suc, ◌+◌, ◌*◌, ◌^◌, ◌≤◌, ◌<◌, List, [], ◌∷◌, ◌++◌, Bool, true, false, not,
  ◌&&◌, ◌||◌, Option, none, some, if◌then◌else◌, ◌==◌, ltb, leb, length, Result, ok, err, ◌>>=◌,
  arith, All, All-append, Bool-cases, inl, inr,
}
use Prim.Native.String.{String}
use rust_bash.Prelude.Bytes.{Bytes, codes}
use rust_bash.Pattern.Class.{backslash, is_digit, is_hexdigit, is_alphabetic, is_alphanumeric}
use rust_bash.Brace.Sequence.{
  RustBashError, limit_exceeded, expansion_error, execution, out_of_fuel,
}
use rust_bash.Arith.Numbers.{
  span, radix_value, digit_value, parse_number, base_n_loop, parse_base_n_value, Number, bounded,
  hex_number, digits_number, is_x, message,
}
use rust_bash.Arith.Strip.{
  Piece, emit, quoted, fail, is_arithmetic_whitespace, is_ident, is_base_digit, contains,
  operator_chars, behind_number, number_piece, split_quoted, all_ident, braced, emit_span,
  dollar_piece, empty_subscript, name_piece, backslash_piece, quoted_piece, next_piece, strip_loop,
  strip_and_validate, based, starts_with_zero, unexpected,
}

-- A blank, a letter, a digit, `_`, `@`, `#` or an operator: no quote, `$`, backslash or byte above 127.
abbrev pub Allowed : ℕ → Type 0
Allowed c =
    (is_arithmetic_whitespace c
      || (is_ident c || (c == b'@' || (c == b'#' || contains operator_chars c))))
    ≡ true

-- A result of allowed bytes, or an error of the source.
abbrev pub IsError : RustBashError → Type 0
IsError (limit_exceeded a b) = Unit
IsError (expansion_error m) = Unit
IsError (execution m) = Unit
IsError out_of_fuel = ⊥

abbrev pub IsClean : Result Bytes RustBashError → Type 0
IsClean (ok out) = All Allowed out
IsClean (err e) = IsError e

-- A piece of allowed bytes, after which less than k is left.
unfoldable pub IsCleanPiece : ℕ → Piece → Type 0
IsCleanPiece k (emit out rest) = All Allowed out × (length rest < k)
IsCleanPiece k (quoted inner rest) = (length inner < k) × (length rest < k)
IsCleanPiece k (fail e) = IsError e

unfoldable pub IsCleanNumber : ℕ → Number → Type 0
IsCleanNumber k (ok (n, (text, rest))) = All Allowed text × (length rest < k)
IsCleanNumber k (err e) = IsError e

or_left : (a b : Bool) → a ≡ true → (a || b) ≡ true
or_left a b h = rw h refl

or_right : (a b : Bool) → b ≡ true → (a || b) ≡ true
or_right true b h = refl
or_right false b h = h

pub blank_Allowed : (c : ℕ) → is_arithmetic_whitespace c ≡ true → Allowed c
blank_Allowed c h = or_left (is_arithmetic_whitespace c) _ h

pub ident_Allowed : (c : ℕ) → is_ident c ≡ true → Allowed c
ident_Allowed c h = or_right (is_arithmetic_whitespace c) _ (or_left (is_ident c) _ h)

pub alphanumeric_Allowed : (c : ℕ) → is_alphanumeric c ≡ true → Allowed c
alphanumeric_Allowed c h = ident_Allowed c (or_right (c == b'_') _ h)

pub digit_Allowed : (c : ℕ) → is_digit c ≡ true → Allowed c
digit_Allowed c h = alphanumeric_Allowed c (or_right (is_alphabetic c) _ h)

pub operator_Allowed : (c : ℕ) → contains operator_chars c ≡ true → Allowed c
operator_Allowed c h =
    or_right (is_arithmetic_whitespace c) _
      (or_right (is_ident c) _ (or_right (c == b'@') _ (or_right (c == b'#') _ h)))

pub base_digit_Allowed : (c : ℕ) → is_base_digit c ≡ true → Allowed c
base_digit_Allowed c h = elim (Bool-cases (is_alphanumeric c)) [
  | inl e ↦ alphanumeric_Allowed c e
  | inr e ↦ elim (Bool-cases (c == b'_')) [
    | inl f ↦ ident_Allowed c (or_left (c == b'_') _ f)
    | inr f ↦
        or_right (is_arithmetic_whitespace c) _
          (or_right (is_ident c) _ (or_left (c == b'@') _ (ground arith)))
  ]
]

hexdigit_Allowed : (c : ℕ) → is_hexdigit c ≡ true → Allowed c
hexdigit_Allowed c h = alphanumeric_Allowed c (ground arith)

x_Allowed : (c : ℕ) → is_x c ≡ true → Allowed c
x_Allowed c h = alphanumeric_Allowed c (ground arith)

pub span-All :
    (passes : ℕ → Bool)
    → ((c : ℕ) → passes c ≡ true → Allowed c)
    → (s : Bytes) → All Allowed (span passes s).0
unfolding span
span-All passes h [] = tt
span-All passes h (c ∷ p) = elim (Bool-cases (passes c)) [
  | inl e ↦ rw e (h c e, span-All passes h p)
  | inr e ↦ rw e tt
]

pub length-span : (passes : ℕ → Bool) (s : Bytes) → length (span passes s).1 ≤ length s
unfolding span
length-span passes [] = omega arith
length-span passes (c ∷ p) = elim (Bool-cases (passes c)) [
  | inl e ↦ rw e (omega (arith, length-span passes p))
  | inr e ↦ rw e (omega arith)
]

pub length-span_shorter :
    (passes : ℕ → Bool) (c : ℕ) (p : Bytes)
    → passes c ≡ true
    → length (span passes (c ∷ p)).1 < length (c ∷ p)
unfolding span
length-span_shorter passes c p e = rw e (omega (arith, length-span passes p))

pub if-IsCleanPiece :
    (k : ℕ) (b : Bool) (x y : Piece)
    → (b ≡ true → IsCleanPiece k x)
    → (b ≡ false → IsCleanPiece k y)
    → IsCleanPiece k (if b then x else y)
if-IsCleanPiece k true x y h g = h refl
if-IsCleanPiece k false x y h g = g refl

if-IsCleanNumber :
    (k : ℕ) (b : Bool) (x y : Number)
    → (b ≡ true → IsCleanNumber k x)
    → (b ≡ false → IsCleanNumber k y)
    → IsCleanNumber k (if b then x else y)
if-IsCleanNumber k true x y h g = h refl
if-IsCleanNumber k false x y h g = g refl

-- `bounded` fails only with its message.
bounded-IsCleanNumber :
    (k : ℕ) (m : Bytes) (o : Option ℕ) (text rest : Bytes)
    → All Allowed text
    → length rest < k
    → IsCleanNumber k (bounded m o >>= λ n. ok (n, (text, rest)))
unfolding IsCleanNumber
bounded-IsCleanNumber k m none text rest a l = tt
bounded-IsCleanNumber k m (some n) text rest a l = elim (Bool-cases (ltb n (2 ^ 63))) [
  | inl e ↦ rw e (a, l)
  | inr e ↦ rw e tt
]

digits_number-IsCleanNumber :
    (k base : ℕ) (t : String) (s : Bytes)
    → length (span is_digit s).1 < k
    → IsCleanNumber k (digits_number base t (span is_digit s))
digits_number-IsCleanNumber k base t s l =
    bounded-IsCleanNumber k (message t (span is_digit s).0) (radix_value base 0 (span is_digit s).0)
      (span is_digit s).0 (span is_digit s).1 (span-All is_digit digit_Allowed s) l

hex_number-IsCleanNumber :
    (k c x : ℕ) (r : Bytes × Bytes)
    → Allowed c
    → Allowed x
    → All Allowed r.0
    → length r.1 < k
    → IsCleanNumber k (hex_number c x r)
unfolding IsCleanNumber
hex_number-IsCleanNumber k c x ([], rest) ac ax a l = tt
hex_number-IsCleanNumber k c x (d ∷ p, rest) ac ax a l =
    bounded-IsCleanNumber k _ (radix_value 16 0 (d ∷ p)) (c ∷ x ∷ d ∷ p) rest (ac, (ax, a)) l

pub parse_number-IsCleanNumber :
    (c : ℕ) (p : Bytes) → is_digit c ≡ true → IsCleanNumber (length (c ∷ p)) (parse_number (c ∷ p))
unfolding parse_number
parse_number-IsCleanNumber c [] h =
    digits_number-IsCleanNumber 1 _ _ (c ∷ []) (length-span_shorter is_digit c [] h)
parse_number-IsCleanNumber c (x ∷ p) h =
    let shorter = length-span_shorter is_digit c (x ∷ p) h in
    let k = length (c ∷ x ∷ p) in
    if-IsCleanNumber k (c == b'0') _ _
      (λ zero_first.
        if-IsCleanNumber k (is_x x) _ _
          (λ hex.
            hex_number-IsCleanNumber k c x (span is_hexdigit p) (digit_Allowed c h)
              (x_Allowed x hex) (span-All is_hexdigit hexdigit_Allowed p)
              (omega (arith, length-span is_hexdigit p)))
          (λ _.
            digits_number-IsCleanNumber k 8 "arithmetic: invalid octal number `" (c ∷ x ∷ p)
              shorter))
      (λ _.
        digits_number-IsCleanNumber k 10 "arithmetic: invalid decimal number `" (c ∷ x ∷ p) shorter)
