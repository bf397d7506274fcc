-- ===== src/Arith/Digits.antt =====
-- src/interpreter/arithmetic.rs: `parse_base_n_value` reads what is written in the base.
use native.Mathlib.Nat.{mod-add-mod}
use rust_bash.Prelude.{
  ◌≡◌, refl, ap, ◌∙◌, ℕ, ◌+◌, ◌-◌, ◌*◌, ◌%◌, ◌^◌, ◌<◌, ◌≤◌, true, false, some, if◌then◌else◌, ◌==◌,
  ltb, leb, List, [], ◌∷◌, map, length, suc, ok, arith, All,
}
use rust_bash.Prelude.Bytes.{Bytes}
use rust_bash.Arith.Word.{wrapping_add, wrapping_mul}
use rust_bash.Arith.Power.{mul-mod_left}
use rust_bash.Arith.Numbers.{digit_value, base_n_loop, parse_base_n_value}

-- The digit of a value: 0-9, a-z, A-Z, @, _.
abbrev pub digit_char : ℕ → ℕ
digit_char d =
    if ltb d 10
    then b'0' + d
    else if ltb d 36
    then b'a' + (d - 10)
    else if ltb d 62
    then b'A' + (d - 36)
    else if d == 62
    then b'@'
    else b'_'

-- The value of digits, from what stands before them.
abbrev pub value : ℕ → ℕ → List ℕ → ℕ
value base n [] = n
value base n (d ∷ ds) = value base (n * base + d) ds

digit_value-digit_char :
    (base d : ℕ) → base ≤ 64 → d < base → digit_value base (digit_char d) ≡ some d
unfolding digit_value
digit_value-digit_char base d h k = ground arith

wrapping_step :
    (n base d : ℕ) → wrapping_add (wrapping_mul (n % 2 ^ 64) base) d ≡ (n * base + d) % 2 ^ 64
unfolding wrapping_add wrapping_mul
wrapping_step n base d =
    ap (λ t. (t + d) % 2 ^ 64) (mul-mod_left n base (2 ^ 64)) ∙ mod-add-mod (n * base) (2 ^ 64) d

base_n_loop-value :
    (base : ℕ) (digits : Bytes) (n : ℕ) (ds : List ℕ)
    → base ≤ 64
    → All (λ d. d < base) ds
    → base_n_loop base digits (n % 2 ^ 64) (map digit_char ds) ≡ ok (value base n ds % 2 ^ 64)
unfolding base_n_loop
base_n_loop-value base digits n [] h a = refl
base_n_loop-value base digits n (d ∷ ds) h (small, a) =
    let below : leb base d ≡ false = ground arith in
    rw (base_n_loop, digit_value-digit_char base d h small, below, wrapping_step n base d)
      (base_n_loop-value base digits (n * base + d) ds h a)

-- A number that is written in a base from 2 to 64, with at least one digit, is read as its value, modulo 2 ^ 64.
pub parse_base_n_value-digit_char :
    (base d : ℕ) (ds : List ℕ)
    → 2 ≤ base
    → base ≤ 64
    → All (λ d. d < base) (d ∷ ds)
    → parse_base_n_value base (map digit_char (d ∷ ds)) ≡ ok (value base 0 (d ∷ ds) % 2 ^ 64)
unfolding parse_base_n_value
parse_base_n_value-digit_char base d ds l h a =
    let lower : leb 2 base ≡ true = ground arith in
    let upper : leb base 64 ≡ true = ground arith in
    let some_digits : (suc (length (map digit_char ds)) == 0) ≡ false = ground arith in
    rw (lower, upper, some_digits) (base_n_loop-value base (map digit_char (d ∷ ds)) 0 (d ∷ ds) h a)
