-- ===== src/Arith/Keys.antt =====
-- src/interpreter/arithmetic.rs: the quoted keys of associative arrays, and `eval_arithmetic`. An index is the rest
-- from there.
pub mod Laws
use rust_bash.Prelude.{
  ℕ, zero, suc, ◌+◌, ◌/◌, List, [], ◌∷◌, ◌++◌, Bool, true, false, ◌&&◌, ◌||◌, Option, none, some,
  if◌then◌else◌, ◌==◌, ltb, length, take, drop, Result, ok, err,
}
use rust_bash.Prelude.Bytes.{Bytes, codes, beq}
use rust_bash.Pattern.Class.{backslash, is_alphabetic}
use rust_bash.Brace.Scan.{also}
use rust_bash.Brace.Sequence.{RustBashError, execution, to_decimal}
use rust_bash.Arith.Numbers.{span}
use rust_bash.Arith.Strip.{is_ident, strip_and_validate}
use rust_bash.Arith.Syntax.{ArithmeticExpr}
use rust_bash.Arith.Store.{Store}
use rust_bash.Arith.Eval.{Evaluation, eval}

unfoldable pub utf8_len : ℕ → ℕ
utf8_len b = if ltb b 0x80 then 1 else if b / 32 == 6 then 2 else if b / 16 == 14 then 3 else 4

-- What a backslash escapes between double quotes.
abbrev pub is_escapable : ℕ → Bool
is_escapable c = c == b'"' || c == backslash || c == b'$' || c == b'`'

abbrev pub starts_escapable : Bytes → Bool
starts_escapable [] = false
starts_escapable (c ∷ p) = is_escapable c

abbrev pub escapes : ℕ → ℕ → Bytes → Bool
escapes quote c p = quote == b'"' && (c == backslash && starts_escapable p)

-- The text up to the quote, and what is behind it; `literal` tells that the byte at hand was escaped.
unfoldable pub key_text : ℕ → Bool → Bytes → Option (Bytes × Bytes)
key_text quote literal [] = none
key_text quote true (c ∷ p) = also c (key_text quote false p)
key_text quote false (c ∷ p) =
    let rest = key_text quote (escapes quote c p) p in
    if c == quote then some ([], p) else if escapes quote c p then rest else also c rest

-- Behind blanks and a `]`.
unfoldable pub behind_bracket : Bytes → Option Bytes
behind_bracket [] = none
behind_bracket (c ∷ p) =
    let rest = behind_bracket p in
    if c == b']' then some p else if c == b' ' || c == 9 then rest else none

abbrev pub with_key : Bytes → Option Bytes → Option (Bytes × Bytes)
with_key key none = none
with_key key (some rest) = some (key, rest)

unfoldable pub take_quoted_key : ℕ → Bytes → Option (Bytes × Bytes)
unfolding key_text behind_bracket
take_quoted_key quote p = elim (key_text quote false p) [
  | none ↦ none
  | some r ↦ with_key r.0 (behind_bracket r.1)
]

-- From behind the `[`: blanks, and a quoted key.
unfoldable pub quoted_subscript : Bytes → Option (Bytes × Bytes)
unfolding take_quoted_key
quoted_subscript [] = none
quoted_subscript (c ∷ p) =
    let rest = quoted_subscript p in
    if c == b' ' || c == 9
    then rest
    else if c == b'\'' || c == b'"'
    then take_quoted_key c p
    else none

-- The key behind the name of an associative array.
unfoldable pub subscript_of : (Bytes → Bool) → Bytes × Bytes → Option (Bytes × Bytes)
unfolding quoted_subscript
subscript_of is_assoc (name, []) = none
subscript_of is_assoc (name, c ∷ p) =
    if c == b'[' && is_assoc name then quoted_subscript p else none

abbrev pub placeholder : ℕ → Bytes
placeholder n = codes "__RB_ASSOC_KEY_" ++ to_decimal n ++ codes "__"

-- The text, and the placeholders with their keys.
abbrev pub Substituted : Type 0
Substituted = Bytes × List (Bytes × Bytes)

abbrev pub before : Bytes → Substituted → Substituted
before text (out, keys) = (text ++ out, keys)

abbrev pub with_placeholder : ℕ → Bytes → Bytes → Substituted → Substituted
with_placeholder n name key (out, keys) =
    (name ++ codes "[" ++ placeholder n ++ codes "]" ++ out, (placeholder n, key) ∷ keys)

-- `n` is the number of placeholders so far.
unfoldable pub substitute_loop : (Bytes → Bool) → ℕ → ℕ → Bytes → Substituted
unfolding subscript_of span utf8_len
substitute_loop is_assoc fuel n [] = ([], [])
substitute_loop is_assoc zero n (c ∷ p) = ([], [])
substitute_loop is_assoc (suc fuel) n (c ∷ p) = elim (c == b'_' || is_alphabetic c) [
  | true ↦ elim (subscript_of is_assoc (span is_ident (c ∷ p))) [
    | some r ↦
        with_placeholder n (span is_ident (c ∷ p)).0 r.0 (substitute_loop is_assoc fuel (suc n) r.1)
    | none ↦
        before (span is_ident (c ∷ p)).0 (substitute_loop is_assoc fuel n (span is_ident (c ∷ p)).1)
  ]
  | false ↦
      before (take (utf8_len c) (c ∷ p))
        (substitute_loop is_assoc fuel n (drop (utf8_len c) (c ∷ p)))
]

unfoldable pub substitute_quoted_assoc_subscripts : (Bytes → Bool) → Bytes → Substituted
unfolding substitute_loop
substitute_quoted_assoc_subscripts is_assoc expr = substitute_loop is_assoc (length expr) 0 expr

abbrev pub lookup : List (Bytes × Bytes) → Bytes → Option Bytes
lookup [] name = none
lookup ((ph, key) ∷ keys) name =
    let rest = lookup keys name in if beq ph name then some key else rest

-- `trim().is_empty()`
abbrev pub is_blank : Bytes → Bool
is_blank [] = true
is_blank (c ∷ p) = let rest = is_blank p in (c == b' ' || c == 9 || c == 10) && rest

-- `parse` is that of the parser's package, with the text of its error.
unfoldable pub eval_arithmetic :
    {State : Type 0}
    → Store State
    → (Bytes → Result ArithmeticExpr Bytes)
    → Bool
    → Bytes
    → Evaluation State ℕ
unfolding substitute_quoted_assoc_subscripts strip_and_validate eval
eval_arithmetic store parse strict_arith expr = λ s.
    let substituted = substitute_quoted_assoc_subscripts (store.is_assoc_array s) expr in
    elim (strip_and_validate substituted.0 strict_arith) [
      | err e ↦ (err e, s)
      | ok stripped ↦ elim (is_blank stripped) [
        | true ↦ (ok 0, s)
        | false ↦ elim (parse stripped) [
          | err e ↦ (err (execution (codes "arithmetic: syntax error in expression: " ++ e)), s)
          | ok ast ↦ eval store (lookup substituted.1) ast s
        ]
      ]
    ]
