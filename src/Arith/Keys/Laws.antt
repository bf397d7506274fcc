-- ===== src/Arith/Keys/Laws.antt =====
-- src/interpreter/arithmetic.rs: keys are read back, and a text without them is left as it is.
use rust_bash.Prelude.{
  ◌≡◌, refl, ap, ℕ, zero, suc, ◌≤◌, [], ◌∷◌, ◌++◌, Bool, false, ◌||◌, none, some, if◌then◌else◌,
  ◌==◌, arith, length, take, drop, take-drop, length-drop, Bool-cases, inl, inr,
}
use rust_bash.Prelude.Bytes.{Bytes}
use rust_bash.Pattern.Class.{backslash, is_alphabetic}
use rust_bash.Arith.Numbers.{span}
use rust_bash.Arith.Strip.{is_ident}
use rust_bash.Arith.Clean.{length-span_shorter}
use rust_bash.Arith.Clean.Pieces.{start_ident}
use rust_bash.Arith.Keys.{
  utf8_len, is_escapable, key_text, take_quoted_key, subscript_of, Substituted, before,
  substitute_loop, substitute_quoted_assoc_subscripts,
}

-- The key between double quotes, as one writes it.
abbrev pub escape : Bytes → Bytes
escape [] = []
escape (c ∷ key) = if is_escapable c then backslash ∷ c ∷ escape key else c ∷ escape key

key_text-escape :
    (key rest : Bytes) → key_text b'"' false (escape key ++ b'"' ∷ rest) ≡ some (key, rest)
unfolding key_text
key_text-escape [] rest = refl
key_text-escape (c ∷ key) rest = elim (Bool-cases (is_escapable c)) [
  | inl e ↦ rw (e, e, key_text-escape key rest) refl
  | inr e ↦
      let no_quote : (c == b'"') ≡ false = ground arith in
      let no_backslash : (c == backslash) ≡ false = ground arith in
      rw (e, no_quote, no_backslash, key_text-escape key rest) refl
]

-- Every key that is written between double quotes with its escapes is read back, with what is behind the bracket.
pub take_quoted_key-escape :
    (key rest : Bytes) → take_quoted_key b'"' (escape key ++ b'"' ∷ b']' ∷ rest) ≡ some (key, rest)
unfolding take_quoted_key
take_quoted_key-escape key rest = rw (take_quoted_key, key_text-escape key (b']' ∷ rest)) refl

span-append : (passes : ℕ → Bool) (s : Bytes) → (span passes s).0 ++ (span passes s).1 ≡ s
unfolding span
span-append passes [] = refl
span-append passes (c ∷ p) = elim (Bool-cases (passes c)) [
  | inl e ↦ rw e (ap (λ r. c ∷ r) (span-append passes p))
  | inr e ↦ rw e refl
]

utf8_len_positive : (c : ℕ) → 1 ≤ utf8_len c
unfolding utf8_len
utf8_len_positive c = ground arith

subscript_of-none :
    (is_assoc : Bytes → Bool) (r : Bytes × Bytes)
    → is_assoc r.0 ≡ false
    → subscript_of is_assoc r ≡ none
unfolding subscript_of
subscript_of-none is_assoc (name, []) h = refl
subscript_of-none is_assoc (name, c ∷ p) h = ground arith

before_whole :
    (text rest whole : Bytes) (r : Substituted)
    → r ≡ (rest, [])
    → text ++ rest ≡ whole
    → before text r ≡ (whole, [])
before_whole text rest whole r h k = cc

module _ (is_assoc : Bytes → Bool) (none_assoc : (name : Bytes) → is_assoc name ≡ false) where
  substitute_loop_whole :
      (fuel n : ℕ) (s : Bytes) → length s ≤ fuel → substitute_loop is_assoc fuel n s ≡ (s, [])
  unfolding substitute_loop
  substitute_loop_whole fuel n [] h = refl
  substitute_loop_whole zero n (c ∷ p) h = absurd (omega arith)
  substitute_loop_whole (suc fuel) n (c ∷ p) h = elim (Bool-cases (c == b'_' || is_alphabetic c)) [
    | inl e ↦
        let name = span is_ident (c ∷ p) in
        let no_key = subscript_of-none is_assoc name (none_assoc name.0) in
        rw (substitute_loop, e, no_key)
          (before_whole name.0 name.1 (c ∷ p) _
            (substitute_loop_whole fuel n name.1
              (omega (arith, length-span_shorter is_ident c p (start_ident c e))))
            (span-append is_ident (c ∷ p)))
    | inr e ↦
        rw (substitute_loop, e)
          (before_whole (take (utf8_len c) (c ∷ p)) (drop (utf8_len c) (c ∷ p)) (c ∷ p) _
            (substitute_loop_whole fuel n (drop (utf8_len c) (c ∷ p))
              (omega (arith, length-drop (utf8_len c) (c ∷ p), utf8_len_positive c)))
            (take-drop (utf8_len c) (c ∷ p)))
  ]

  -- Where no name is an associative array, the pass over quoted subscripts changes nothing and loses nothing.
  pub substitute_whole :
      (expr : Bytes) → substitute_quoted_assoc_subscripts is_assoc expr ≡ (expr, [])
  unfolding substitute_quoted_assoc_subscripts
  substitute_whole expr = substitute_loop_whole (length expr) 0 expr (omega arith)
