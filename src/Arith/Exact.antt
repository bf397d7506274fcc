-- ===== src/Arith/Exact.antt =====
-- src/interpreter/arithmetic.rs: expressions of `+`, `-`, `*`, `~` and the signs have their exact integer values,
-- modulo 2 ^ 64.
use native.Mathlib.Nat.{div-add-mod, add-mul-mod_self_right, mod-lt}
use rust_bash.Prelude.{
  ◌≡◌, refl, sym, ap, ◌∙◌, ℕ, ◌+◌, ◌-◌, ◌*◌, ◌/◌, ◌%◌, ◌^◌, ◌<◌, ok, arith, Option,
}
use rust_bash.Prelude.Bytes.{Bytes}
use rust_bash.Arith.Word.{
  add, subtract, multiply, wrapping_add, wrapping_sub, wrapping_mul, wrapping_neg, bitwise_not,
}
use rust_bash.Arith.Syntax.{
  ArithmeticExpr, literal, unary_op, binary_op, unary_plus, unary_minus, bitwise_not_op,
}
use rust_bash.Arith.Store.{Store}
use rust_bash.Arith.Eval.{eval}

-- The integer value, as a difference: `Exact e p n` says that e stands for p - n.
pub data Exact : ArithmeticExpr → ℕ → ℕ → Type 0 where
  of_literal : (v : ℕ) → v < 2 ^ 63 → Exact (literal v) v 0
  of_plus : (e : ArithmeticExpr) (p n : ℕ) → Exact e p n → Exact (unary_op unary_plus e) p n
  of_minus : (e : ArithmeticExpr) (p n : ℕ) → Exact e p n → Exact (unary_op unary_minus e) n p
  of_not :
      (e : ArithmeticExpr) (p n : ℕ) → Exact e p n → Exact (unary_op bitwise_not_op e) n (p + 1)
  of_add :
      (l r : ArithmeticExpr) (p n p' n' : ℕ)
      → Exact l p n
      → Exact r p' n'
      → Exact (binary_op add l r) (p + p') (n + n')
  of_subtract :
      (l r : ArithmeticExpr) (p n p' n' : ℕ)
      → Exact l p n
      → Exact r p' n'
      → Exact (binary_op subtract l r) (p + n') (n + p')
  of_multiply :
      (l r : ArithmeticExpr) (p n p' n' : ℕ)
      → Exact l p n
      → Exact r p' n'
      → Exact (binary_op multiply l r) (p * p' + n * n') (p * n' + n * p')

-- v is p - n modulo 2 ^ 64.
abbrev Stands : ℕ → ℕ → ℕ → Type 0
Stands v p n = (v < 2 ^ 64) × ((k l : ℕ) × (v + n + k * 2 ^ 64 ≡ p + l * 2 ^ 64))

Stands-wrapping_add :
    (v p n v' p' n' : ℕ)
    → Stands v p n
    → Stands v' p' n'
    → Stands (wrapping_add v v') (p + p') (n + n')
unfolding wrapping_add
Stands-wrapping_add v p n v' p' n' (h, (k, l, e)) (h', (k', l', e')) = (
  mod-lt (v + v') (omega arith),
  ((v + v') / 2 ^ 64 + k + k', l + l', omega (arith, div-add-mod (v + v') (2 ^ 64))),
)

Stands-wrapping_sub :
    (v p n v' p' n' : ℕ)
    → Stands v p n
    → Stands v' p' n'
    → Stands (wrapping_sub v v') (p + n') (n + p')
unfolding wrapping_sub
Stands-wrapping_sub v p n v' p' n' (h, (k, l, e)) (h', (k', l', e')) = (
  mod-lt (v + (2 ^ 64 - v')) (omega arith),
  (
    (v + (2 ^ 64 - v')) / 2 ^ 64 + k + l',
    l + k' + 1,
    omega (arith, div-add-mod (v + (2 ^ 64 - v')) (2 ^ 64)),
  ),
)

Stands-wrapping_neg : (v p n : ℕ) → Stands v p n → Stands (wrapping_neg v) n p
unfolding wrapping_neg
Stands-wrapping_neg v p n (h, (k, l, e)) = (
  mod-lt (2 ^ 64 - v) (omega arith),
  ((2 ^ 64 - v) / 2 ^ 64 + l, k + 1, omega (arith, div-add-mod (2 ^ 64 - v) (2 ^ 64))),
)

Stands-bitwise_not : (v p n : ℕ) → Stands v p n → Stands (bitwise_not v) n (p + 1)
unfolding bitwise_not
Stands-bitwise_not v p n (h, (k, l, e)) = (omega arith, (l, k + 1, omega arith))

Stands-wrapping_mul :
    (v p n v' p' n' : ℕ)
    → Stands v p n
    → Stands v' p' n'
    → Stands (wrapping_mul v v') (p * p' + n * n') (p * n' + n * p')
unfolding wrapping_mul
Stands-wrapping_mul v p n v' p' n' (h, (k, l, e)) (h', (k', l', e')) = (
  mod-lt (v * v') (omega arith),
  (
    (v * v') / 2 ^ 64 + l' * n + k' * p + k * v',
    l' * p + k' * n + l * v',
    omega (
      arith,
      div-add-mod (v * v') (2 ^ 64),
      ap (λ (t : ℕ). t * v') e,
      ap (λ (t : ℕ). p * t) e',
      ap (λ (t : ℕ). n * t) e',
    ),
  ),
)

module _ {State : Type 0} (store : Store State) (placeholders : Bytes → Option Bytes) where
  -- The expression comes back with a value that stands for p - n, and leaves the state.
  abbrev Evaluates : State → ArithmeticExpr → ℕ → ℕ → Type 0
  Evaluates s e p n = (v : ℕ) × (eval store placeholders e s ≡ (ok v, s)) × Stands v p n

  eval-Evaluates : (s : State) (e : ArithmeticExpr) (p n : ℕ) → Exact e p n → Evaluates s e p n
  unfolding eval
  eval-Evaluates s _ _ _ (of_literal v h) = (v, refl, (omega arith, (0, 0, omega arith)))
  eval-Evaluates s _ _ _ (of_plus e p n x) =
      let (v, eq, st) = eval-Evaluates s e p n x in (v, rw eq refl, st)
  eval-Evaluates s _ _ _ (of_minus e p n x) =
      let (v, eq, st) = eval-Evaluates s e p n x in
      (wrapping_neg v, rw eq refl, Stands-wrapping_neg v p n st)
  eval-Evaluates s _ _ _ (of_not e p n x) =
      let (v, eq, st) = eval-Evaluates s e p n x in
      (bitwise_not v, rw eq refl, Stands-bitwise_not v p n st)
  eval-Evaluates s _ _ _ (of_add l r p n p' n' x y) =
      let (v, eq, st) = eval-Evaluates s l p n x in
      let (w, eq', st') = eval-Evaluates s r p' n' y in
      (wrapping_add v w, rw (eq, eq') refl, Stands-wrapping_add v p n w p' n' st st')
  eval-Evaluates s _ _ _ (of_subtract l r p n p' n' x y) =
      let (v, eq, st) = eval-Evaluates s l p n x in
      let (w, eq', st') = eval-Evaluates s r p' n' y in
      (wrapping_sub v w, rw (eq, eq') refl, Stands-wrapping_sub v p n w p' n' st st')
  eval-Evaluates s _ _ _ (of_multiply l r p n p' n' x y) =
      let (v, eq, st) = eval-Evaluates s l p n x in
      let (w, eq', st') = eval-Evaluates s r p' n' y in
      (wrapping_mul v w, rw (eq, eq') refl, Stands-wrapping_mul v p n w p' n' st st')

  -- An expression of literals, `+`, `-`, `*`, `~` and the signs comes back without an error and leaves the state,
  -- and its value is the exact integer value p - n modulo 2 ^ 64.
  pub eval-Exact :
      (s : State) (e : ArithmeticExpr) (p n : ℕ)
      → Exact e p n
      → (v : ℕ) × (eval store placeholders e s ≡ (ok v, s))
        × (v < 2 ^ 64)
        × ((v + n) % 2 ^ 64 ≡ p % 2 ^ 64)
  eval-Exact s e p n x =
      let (v, eq, (fits, (k, l, h))) = eval-Evaluates s e p n x in
      (
        v,
        eq,
        fits,
        sym (add-mul-mod_self_right (v + n) k (2 ^ 64))
            ∙ ap (λ t. t % 2 ^ 64) h
            ∙ add-mul-mod_self_right p l (2 ^ 64),
      )
