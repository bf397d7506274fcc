-- ===== src/Arith/Clean/Pieces.antt =====
-- src/interpreter/arithmetic.rs: the rounds of `strip_and_validate`.
use rust_bash.Prelude.{
  ◌≡◌, refl, ℕ, suc, ◌≤◌, ◌<◌, [], ◌∷◌, ◌++◌, Bool, true, false, not, ◌&&◌, ◌||◌, ◌==◌, ltb, leb,
  length, Result, ok, err, arith, All, All-append, Bool-cases, Option-cases, inl, inr, and-eq-true,
}
use rust_bash.Prelude.Bytes.{Bytes, codes}
use rust_bash.Pattern.Class.{backslash, is_digit, is_alphabetic}
use rust_bash.Brace.Sequence.{RustBashError}
use rust_bash.Arith.Numbers.{
  span, digit_value, parse_number, base_n_loop, parse_base_n_value, Number,
}
use rust_bash.Arith.Strip.{
  emit, fail, is_arithmetic_whitespace, is_ident, is_base_digit, contains, operator_chars,
  behind_number, number_piece, split_quoted, all_ident, braced, emit_span, dollar_piece,
  empty_subscript, name_piece, backslash_piece, next_piece, based, starts_with_zero,
}
use rust_bash.Arith.Clean.{
  Allowed, IsError, IsCleanPiece, IsCleanNumber, blank_Allowed, ident_Allowed, digit_Allowed,
  operator_Allowed, base_digit_Allowed, span-All, length-span, length-span_shorter, if-IsCleanPiece,
  parse_number-IsCleanNumber,
}

-- A number, or an error of the source.
Sound : Result ℕ RustBashError → Type 0
Sound (ok v) = Unit
Sound (err e) = IsError e

base_n_loop-Sound : (base : ℕ) (digits p : Bytes) (n : ℕ) → Sound (base_n_loop base digits n p)
unfolding base_n_loop Sound
base_n_loop-Sound base digits [] n = tt
base_n_loop-Sound base digits (c ∷ p) n = elim (Option-cases (digit_value base c)) [
  | inl e ↦ rw (base_n_loop, e) tt
  | inr (d, e) ↦ elim (Bool-cases (leb base d)) [
    | inl f ↦ rw (base_n_loop, e, f) tt
    | inr f ↦ rw (base_n_loop, e, f) (base_n_loop-Sound base digits p _)
  ]
]

parse_base_n_value-Sound : (base : ℕ) (digits : Bytes) → Sound (parse_base_n_value base digits)
unfolding parse_base_n_value Sound
parse_base_n_value-Sound base digits = elim (Bool-cases (leb 2 base && leb base 64)) [
  | inl e ↦ elim (Bool-cases (length digits == 0)) [
    | inl f ↦ rw (e, f) tt
    | inr f ↦ rw (e, f) (base_n_loop-Sound base digits digits 0)
  ]
  | inr e ↦ rw e tt
]

based-IsCleanPiece :
    (k base : ℕ) (text : Bytes) (r : Bytes × Bytes)
    → All Allowed text
    → All Allowed r.0
    → length r.1 < k
    → IsCleanPiece k (based base text r)
unfolding IsCleanPiece Sound
based-IsCleanPiece k base text (digits, rest) a a' l =
    read (parse_base_n_value base digits) (parse_base_n_value-Sound base digits)
  where
    read :
        (v : Result ℕ RustBashError)
        → Sound v
        → IsCleanPiece k (elim v [ ok v ↦ emit (text ++ b'#' ∷ digits) rest | err e ↦ fail e ])
    read (ok v) h = (All-append Allowed text (b'#' ∷ digits) a (refl, a'), l)
    read (err e) h = h

behind_number-IsCleanPiece :
    (k : ℕ) (strict_arith : Bool) (n : ℕ) (text rest : Bytes)
    → All Allowed text
    → length rest < k
    → IsCleanPiece k (behind_number strict_arith n text rest)
unfolding behind_number IsCleanPiece
behind_number-IsCleanPiece k strict_arith n text [] a l = (a, l)
behind_number-IsCleanPiece k strict_arith n text (c ∷ p) a l =
    if-IsCleanPiece k (c == b'.') _ _ (λ _. tt)
      (λ _.
        if-IsCleanPiece k (c == b'#') _ _
          (λ _.
            if-IsCleanPiece k (strict_arith && (ltb 1 (length text) && starts_with_zero text)) _ _
              (λ _. tt)
              (λ _.
                based-IsCleanPiece k n text (span is_base_digit p) a
                  (span-All is_base_digit base_digit_Allowed p)
                  (omega (arith, length-span is_base_digit p))))
          (λ _. (a, l)))

number_piece-IsCleanPiece :
    (k : ℕ) (strict_arith : Bool) (number : Number)
    → IsCleanNumber k number
    → IsCleanPiece k (number_piece strict_arith number)
unfolding number_piece IsCleanNumber IsCleanPiece
number_piece-IsCleanPiece k strict_arith (err e) h = h
number_piece-IsCleanPiece k strict_arith (ok (n, (text, rest))) (a, l) =
    behind_number-IsCleanPiece k strict_arith n text rest a l

length-split_quoted :
    (skip : Bool) (s : Bytes)
    → (length (split_quoted skip s).0 ≤ length s) × (length (split_quoted skip s).1 ≤ length s)
unfolding split_quoted
length-split_quoted skip [] = (omega arith, omega arith)
length-split_quoted true (c ∷ p) =
    let (l, m) = length-split_quoted false p in (omega arith, omega arith)
length-split_quoted false (c ∷ p) =
    let (l, m) = length-split_quoted (c == backslash) p in
    elim (Bool-cases (c == b'"')) [
      | inl e ↦ rw e (omega arith, omega arith)
      | inr e ↦ rw e (omega arith, omega arith)
    ]

all_ident-All : (s : Bytes) → all_ident s ≡ true → All Allowed s
unfolding all_ident
all_ident-All [] h = tt
all_ident-All (c ∷ p) h =
    let (here, later) = and-eq-true (is_ident c) (all_ident p) h in
    (ident_Allowed c here, all_ident-All p later)

-- `q` is behind the `$`, and `p` behind the brace.
braced-IsCleanPiece :
    (p : Bytes) (r : Bytes × Bytes)
    → length r.1 ≤ length p
    → IsCleanPiece (suc (suc (length p))) (braced p r)
unfolding IsCleanPiece
braced-IsCleanPiece p ([], after) l = (tt, omega arith)
braced-IsCleanPiece p (c ∷ inner, []) l = (tt, omega arith)
braced-IsCleanPiece p (c ∷ inner, close ∷ after) l =
    if-IsCleanPiece (suc (suc (length p))) (all_ident (c ∷ inner)) _ _
      (λ h. (all_ident-All (c ∷ inner) h, omega arith)) (λ _. (tt, omega arith))

emit_span-IsCleanPiece :
    (k : ℕ) (front back : Bytes) (r : Bytes × Bytes)
    → All Allowed front
    → All Allowed back
    → All Allowed r.0
    → length r.1 < k
    → IsCleanPiece k (emit_span front back r)
unfolding IsCleanPiece
emit_span-IsCleanPiece k front back (text, rest) af ab at l =
    (All-append Allowed (front ++ text) back (All-append Allowed front text af at) ab, l)

emit-IsCleanPiece :
    (k : ℕ) (out rest : Bytes)
    → all_ident out ≡ true
    → length rest < k
    → IsCleanPiece k (emit out rest)
unfolding IsCleanPiece
emit-IsCleanPiece k out rest h l = (all_ident-All out h, l)

pub start_ident : (c : ℕ) → (c == b'_' || is_alphabetic c) ≡ true → is_ident c ≡ true
start_ident c h = ground arith

dollar_piece-IsCleanPiece : (p : Bytes) → IsCleanPiece (suc (length p)) (dollar_piece p)
unfolding dollar_piece all_ident
dollar_piece-IsCleanPiece [] = emit-IsCleanPiece 1 [] [] refl (omega arith)
dollar_piece-IsCleanPiece (c ∷ p) =
    let k = suc (length (c ∷ p)) in
    if-IsCleanPiece k (c == b'{') _ _
      (λ _.
        braced-IsCleanPiece p (span (λ d. not (d == b'}')) p)
          (length-span (λ d. not (d == b'}')) p))
      (λ _.
        if-IsCleanPiece k (c == b'_' || is_alphabetic c) _ _
          (λ h.
            emit_span-IsCleanPiece k [] [] (span is_ident (c ∷ p)) tt tt
              (span-All is_ident ident_Allowed (c ∷ p))
              (omega (arith, length-span is_ident (c ∷ p))))
          (λ _.
            if-IsCleanPiece k (is_digit c) _ _
              (λ h.
                emit_span-IsCleanPiece k (codes "__RB_ARITH_POS_") (codes "__")
                  (span is_digit (c ∷ p)) (all_ident-All (codes "__RB_ARITH_POS_") refl)
                  (all_ident-All (codes "__") refl) (span-All is_digit digit_Allowed (c ∷ p))
                  (omega (arith, length-span is_digit (c ∷ p))))
              (λ _.
                if-IsCleanPiece k (c == b'#') _ _
                  (λ _. emit-IsCleanPiece k (codes "__RB_ARITH_HASH__") p refl (omega arith))
                  (λ _.
                    if-IsCleanPiece k (c == b'?') _ _
                      (λ _.
                        emit-IsCleanPiece k (codes "__RB_ARITH_QUESTION__") p refl (omega arith))
                      (λ _. emit-IsCleanPiece k [] (c ∷ p) refl (omega arith))))))

backslash_piece-IsCleanPiece : (p : Bytes) → IsCleanPiece (suc (length p)) (backslash_piece p)
unfolding IsCleanPiece
backslash_piece-IsCleanPiece [] = tt
backslash_piece-IsCleanPiece (c ∷ p) =
    if-IsCleanPiece (suc (suc (length p))) (c == b'$') _ _ (λ _. (tt, omega arith)) (λ _. tt)

name_piece-IsCleanPiece :
    (k : ℕ) (r : Bytes × Bytes) → All Allowed r.0 → length r.1 < k → IsCleanPiece k (name_piece r)
unfolding IsCleanPiece
name_piece-IsCleanPiece k (name, rest) a l =
    if-IsCleanPiece k (empty_subscript rest) _ _ (λ _. tt) (λ _. (a, l))

pub next_piece-IsCleanPiece :
    (strict_arith : Bool) (c : ℕ) (p : Bytes)
    → IsCleanPiece (length (c ∷ p)) (next_piece strict_arith c p)
unfolding next_piece IsCleanPiece
next_piece-IsCleanPiece strict_arith c p =
    let k = length (c ∷ p) in
    if-IsCleanPiece k (is_arithmetic_whitespace c) _ _ (λ h. ((blank_Allowed c h, tt), omega arith))
      (λ _.
        if-IsCleanPiece k (is_digit c) _ _
          (λ h.
            number_piece-IsCleanPiece k strict_arith (parse_number (c ∷ p))
              (parse_number-IsCleanNumber c p h))
          (λ _.
            if-IsCleanPiece k (c == b'\'') _ _ (λ _. tt)
              (λ _.
                if-IsCleanPiece k (c == b'"') _ _
                  (λ _. let (l, m) = length-split_quoted false p in (omega arith, omega arith))
                  (λ _.
                    if-IsCleanPiece k (c == b'$') _ _ (λ _. dollar_piece-IsCleanPiece p)
                      (λ _.
                        if-IsCleanPiece k (c == backslash) _ _ (λ _. backslash_piece-IsCleanPiece p)
                          (λ _.
                            if-IsCleanPiece k (c == b'_' || is_alphabetic c) _ _
                              (λ h.
                                name_piece-IsCleanPiece k (span is_ident (c ∷ p))
                                  (span-All is_ident ident_Allowed (c ∷ p))
                                  (length-span_shorter is_ident c p (start_ident c h)))
                              (λ _.
                                if-IsCleanPiece k (contains operator_chars c) _ _
                                  (λ h. ((operator_Allowed c h, tt), omega arith)) (λ _. tt))))))))
