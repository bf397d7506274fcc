-- ===== src/Arith/Power.antt =====
-- src/interpreter/arithmetic.rs: `wrapping_pow` is the power, modulo 2 ^ 64.
use native.Mathlib.Nat.{
  mul_comm, pow-zero, pow-suc, mod-lt, add-mul-mod_self_left, div-add-mod, mod-eq_of_lt,
}
use rust_bash.Prelude.{
  ◌≡◌, refl, sym, ap, ◌∙◌, ℕ, zero, suc, ◌+◌, ◌*◌, ◌/◌, ◌%◌, ◌^◌, ◌<◌, false, ◌==◌, arith, Result,
  ok, Bool-cases, inl, inr,
}
use rust_bash.Arith.Word.{wrapping_mul, pow_loop, wrapping_pow, is_negative}

-- A remainder may be taken before a product.
pub mul-mod_left : (a b n : ℕ) → (a % n * b) % n ≡ (a * b) % n
mul-mod_left a b n =
    sym (add-mul-mod_self_left (a % n * b) n (a / n * b))
    ∙ ap (λ t. t % n) (omega (arith, ap (λ (t : ℕ). t * b) (div-add-mod a n)))

mul-mod_right : (a b n : ℕ) → (a * (b % n)) % n ≡ (a * b) % n
mul-mod_right a b n =
    ap (λ t. t % n) (mul_comm a (b % n)) ∙ mul-mod_left b a n ∙ ap (λ t. t % n) (mul_comm b a)

pow_double : (b n : ℕ) → b ^ (n + n) ≡ (b * b) ^ n
pow_double b zero = rw (pow-zero (b * b), pow-zero b) refl
pow_double b (suc n) =
    let twice : suc n + suc n ≡ suc (suc (n + n)) = omega arith in
    rw twice (
      omega (
        arith,
        pow-suc b (suc (n + n)),
        pow-suc b (n + n),
        pow-suc (b * b) n,
        ap (λ (t : ℕ). t * b) (pow-suc b (n + n)),
        ap (λ (t : ℕ). t * (b * b)) (pow_double b n),
      ))

pow-mod : (b n m : ℕ) → (b % m) ^ n % m ≡ b ^ n % m
pow-mod b zero m = rw (pow-zero (b % m), pow-zero b) refl
pow-mod b (suc n) m =
    rw (pow-suc (b % m) n, pow-suc b n)
      (mul-mod_right ((b % m) ^ n) b m
        ∙ sym (mul-mod_left ((b % m) ^ n) b m)
        ∙ ap (λ t. t * b % m) (pow-mod b n m)
        ∙ mul-mod_left (b ^ n) b m)

-- What one round leaves to do is what was to do, modulo m.
squared : (r b q m : ℕ) → (r % m * (b * b % m) ^ q) % m ≡ (r * b ^ (q + q)) % m
squared r b q m =
    mul-mod_left r ((b * b % m) ^ q) m
    ∙ sym (mul-mod_right r ((b * b % m) ^ q) m)
    ∙ ap (λ t. r * t % m) (pow-mod (b * b) q m)
    ∙ mul-mod_right r ((b * b) ^ q) m
    ∙ ap (λ t. r * t % m) (sym (pow_double b q))

positive : (n : ℕ) → (suc n == 0) ≡ false
positive n = ground arith

odd_step : (r b e q : ℕ) → e ≡ suc (q + q) → r * b * b ^ (q + q) ≡ r * b ^ e
odd_step r b e q h = rw h (omega (arith, ap (λ (t : ℕ). r * t) (pow-suc b (q + q))))

finished :
    {E : Type 0} (base result : ℕ)
    → result < 2 ^ 64
    → Path (Result ℕ E) (ok result) (ok ((result * base ^ 0) % 2 ^ 64))
finished base result k =
    ap ok (sym (mod-eq_of_lt k) ∙ ap (λ t. t % 2 ^ 64) (rw (pow-zero base) (omega arith)))

pow_loop_lem :
    (fuel exp base result : ℕ)
    → exp < 2 ^ fuel
    → result < 2 ^ 64
    → pow_loop fuel exp base result ≡ ok ((result * base ^ exp) % 2 ^ 64)
unfolding pow_loop wrapping_mul
pow_loop_lem zero exp base result h k =
    let none_left : exp ≡ 0 = omega (arith, pow-zero 2) in rw none_left (finished base result k)
pow_loop_lem (suc fuel) zero base result h k = finished base result k
pow_loop_lem (suc fuel) (suc n) base result h k = elim (Bool-cases (suc n % 2 == 1)) [
  | inl odd ↦
      rw (positive n, odd)
        (pow_loop_lem fuel (suc n / 2) (wrapping_mul base base) (wrapping_mul result base)
            (omega (arith, pow-suc 2 fuel)) (mod-lt (result * base) (omega arith))
          ∙ ap ok (
              squared (result * base) base (suc n / 2) (2 ^ 64)
              ∙ ap (λ t. t % 2 ^ 64) (odd_step result base (suc n) (suc n / 2) (ground arith))))
  | inr even ↦
      rw (positive n, even)
        (pow_loop_lem fuel (suc n / 2) (wrapping_mul base base) result
            (omega (arith, pow-suc 2 fuel)) k
          ∙ ap ok (
              ap (λ t. t * (base * base % 2 ^ 64) ^ (suc n / 2) % 2 ^ 64) (sym (mod-eq_of_lt k))
              ∙ squared result base (suc n / 2) (2 ^ 64)
              ∙ ap (λ t. result * base ^ t % 2 ^ 64) (ground arith)))
]

-- A power with an exponent that is not negative is the power of the patterns, modulo 2 ^ 64, within 63 rounds.
pub wrapping_pow-pow :
    (base exp : ℕ) → exp < 2 ^ 63 → wrapping_pow base exp ≡ ok (base ^ exp % 2 ^ 64)
unfolding wrapping_pow
wrapping_pow-pow base exp h =
    let same_sign : is_negative exp ≡ false = ground arith in
    rw same_sign
      (pow_loop_lem 63 exp base 1 h (omega arith) ∙ ap (λ t. ok (t % 2 ^ 64)) (omega arith))
