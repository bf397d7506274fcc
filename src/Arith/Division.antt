-- ===== src/Arith/Division.antt =====
-- src/interpreter/arithmetic.rs: `/` and `%` belong together.
use native.Mathlib.Nat.{
  add-mod, add-mul-mod_self_right, div-add-mod, mod-eq_of_lt, mod-lt, mod-le, div-le_self,
}
use rust_bash.Prelude.{
  ◌≡◌, refl, sym, ap, ◌∙◌, ℕ, ◌+◌, ◌-◌, ◌*◌, ◌/◌, ◌%◌, ◌^◌, ◌<◌, ◌≤◌, Bool, true, false,
  if◌then◌else◌, ◌==◌, arith, ok, Bool-cases, inl, inr,
}
use rust_bash.Arith.Word.{
  is_negative, unsigned_abs, wrapping_neg, wrapping_add, wrapping_mul, wrapping_div, wrapping_rem,
  apply_binary_arith, divide, modulo,
}
use rust_bash.Arith.Power.{mul-mod_left}

congruent : (x a k l m : ℕ) → x + k * m ≡ a + l * m → a < m → x % m ≡ a
congruent x a k l m h u =
    sym (add-mul-mod_self_right x k m)
    ∙ ap (λ t. t % m) h
    ∙ add-mul-mod_self_right a l m
    ∙ mod-eq_of_lt u

-- A sum and a product of remainders, where what they are remainders of is congruent to a.
glue :
    (q r x y z a k l : ℕ)
    → q ≡ x % 2 ^ 64
    → r ≡ z % 2 ^ 64
    → x * y + z + k * 2 ^ 64 ≡ a + l * 2 ^ 64
    → a < 2 ^ 64
    → wrapping_add (wrapping_mul q y) r ≡ a
unfolding wrapping_add wrapping_mul
glue q r x y z a k l hq hr h u =
    rw (hq, hr)
      (ap (λ t. (t + z % 2 ^ 64) % 2 ^ 64) (mul-mod_left x y (2 ^ 64))
        ∙ sym (add-mod (x * y) z (2 ^ 64))
        ∙ congruent (x * y + z) a k l (2 ^ 64) h u)

negative-le : (a : ℕ) → is_negative a ≡ true → 2 ^ 63 ≤ a
negative-le a h = ground arith

Restored : ℕ → ℕ → Type 0
Restored a b = wrapping_add (wrapping_mul (wrapping_div a b) b) (wrapping_rem a b) ≡ a

module _ (a b : ℕ) (a_fits : a < 2 ^ 64) (b_fits : b < 2 ^ 64) where
  both_positive : is_negative a ≡ false → is_negative b ≡ false → Restored a b
  unfolding wrapping_div wrapping_rem unsigned_abs Restored
  both_positive ea eb =
      rw (ea, eb)
        (glue (a / b) (a % b) (a / b) b (a % b) a 0 0
          (sym (mod-eq_of_lt (omega (arith, div-le_self a b))))
          (sym (mod-eq_of_lt (omega (arith, mod-le a b)))) (omega (arith, div-add-mod a b)) a_fits)

  divisor_negative : is_negative a ≡ false → is_negative b ≡ true → Restored a b
  unfolding wrapping_div wrapping_rem unsigned_abs wrapping_neg Restored
  divisor_negative ea eb =
      let m : ℕ = 2 ^ 64 in
      let c : ℕ = m - b in
      let filled_b : b + c ≡ m = omega arith in
      let q : ℕ = a / c in
      let filled : (m - q) + q ≡ m = omega (arith, div-le_self a c) in
      rw (ea, eb)
        (glue ((m - q) % m) (a % c) (m - q) b (a % c) a q b refl
          (sym (mod-eq_of_lt (omega (arith, mod-le a c))))
          (omega (
            arith,
            div-add-mod a c,
            filled,
            ap (λ (t : ℕ). t * b) filled,
            ap (λ (t : ℕ). q * t) (filled_b),
          ))
          a_fits)

  dividend_negative : is_negative a ≡ true → is_negative b ≡ false → Restored a b
  unfolding wrapping_div wrapping_rem unsigned_abs wrapping_neg Restored
  dividend_negative ea eb =
      let m : ℕ = 2 ^ 64 in
      let c : ℕ = m - a in
      let q : ℕ = c / b in
      let filled : (m - q) + q ≡ m = omega (arith, div-le_self c b) in
      rw (ea, eb)
        (glue ((m - q) % m) ((m - c % b) % m) (m - q) b (m - c % b) a 0 b refl refl
          (omega (arith, div-add-mod c b, mod-le c b, filled, ap (λ (t : ℕ). t * b) filled)) a_fits)

  both_negative : is_negative a ≡ true → is_negative b ≡ true → Restored a b
  unfolding wrapping_div wrapping_rem unsigned_abs wrapping_neg Restored
  both_negative ea eb =
      let m : ℕ = 2 ^ 64 in
      let c : ℕ = m - a in
      let d : ℕ = m - b in
      let filled_b : b + d ≡ m = omega arith in
      rw (ea, eb)
        (glue (c / d) ((m - c % d) % m) (c / d) b (m - c % d) a 0 (c / d)
          (sym (mod-eq_of_lt (omega (arith, div-le_self c d, negative-le a ea)))) refl
          (omega (arith, div-add-mod c d, mod-le c d, ap (λ (t : ℕ). (c / d) * t) (filled_b)))
          a_fits)

restored : (a b : ℕ) → a < 2 ^ 64 → b < 2 ^ 64 → Restored a b
restored a b ha hb = elim (Bool-cases (is_negative a)) [
  | inl ea ↦ elim (Bool-cases (is_negative b)) [
    | inl eb ↦ both_negative a b ha hb ea eb
    | inr eb ↦ dividend_negative a b ha hb ea eb
  ]
  | inr ea ↦ elim (Bool-cases (is_negative b)) [
    | inl eb ↦ divisor_negative a b ha hb ea eb
    | inr eb ↦ both_positive a b ha hb ea eb
  ]
]

unsigned_abs_small : (x : ℕ) → x < 2 ^ 63 → unsigned_abs x ≡ x
unfolding unsigned_abs
unsigned_abs_small x h = ground arith

unsigned_abs-wrapping_neg : (x : ℕ) → x < 2 ^ 63 → unsigned_abs (wrapping_neg x) ≡ x
unfolding unsigned_abs wrapping_neg
unsigned_abs-wrapping_neg x h = ground arith

-- The size of a divisor that is not 0.
unsigned_abs_bounds :
    (b : ℕ) → 0 < b → b < 2 ^ 64 → (0 < unsigned_abs b) × (unsigned_abs b ≤ 2 ^ 63)
unfolding unsigned_abs
unsigned_abs_bounds b h k = ground arith

wrapping_rem_lem :
    (a b : ℕ)
    → let r = unsigned_abs a % unsigned_abs b in
      wrapping_rem a b ≡ (if is_negative a then wrapping_neg r else r)
unfolding wrapping_rem
wrapping_rem_lem a b = refl

either_sign : (b : Bool) (x : ℕ) → x < 2 ^ 63 → unsigned_abs (if b then wrapping_neg x else x) ≡ x
either_sign true x h = unsigned_abs-wrapping_neg x h
either_sign false x h = unsigned_abs_small x h

remainder_smaller :
    (a b : ℕ) → 0 < b → b < 2 ^ 64 → unsigned_abs (wrapping_rem a b) < unsigned_abs b
remainder_smaller a b positive hb =
    let (some_size, bounded) = unsigned_abs_bounds b positive hb in
    let small : unsigned_abs a % unsigned_abs b < unsigned_abs b =
      mod-lt (unsigned_abs a) some_size in
    rw
      (
        wrapping_rem_lem a b,
        either_sign (is_negative a) (unsigned_abs a % unsigned_abs b) (omega arith),
      )
      small

-- Division and remainder fit together in all four cases of the signs, the least number by -1 among them: the
-- quotient by the divisor plus the remainder is the dividend, where the divisor is not 0, and the
-- remainder is smaller in size than the divisor.
pub divide-modulo :
    (a b : ℕ)
    → a < 2 ^ 64
    → b < 2 ^ 64
    → 0 < b
    → (q r : ℕ) × (apply_binary_arith divide a b ≡ ok q)
      × (apply_binary_arith modulo a b ≡ ok r)
      × (wrapping_add (wrapping_mul q b) r ≡ a)
      × (unsigned_abs r < unsigned_abs b)
unfolding apply_binary_arith Restored
divide-modulo a b ha hb positive =
    let not_zero : (b == 0) ≡ false = ground arith in
    (
      wrapping_div a b,
      wrapping_rem a b,
      rw not_zero refl,
      rw not_zero refl,
      restored a b ha hb,
      remainder_smaller a b positive hb,
    )
