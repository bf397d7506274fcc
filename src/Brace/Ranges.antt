-- ===== src/Brace/Ranges.antt =====
-- src/interpreter/brace.rs: the numbers of a sequence.
use rust_bash.Prelude.{
  ◌≡◌, refl, ℕ, zero, suc, ◌+◌, ◌<◌, List, [], ◌∷◌, Bool, true, false, none, some, if◌then◌else◌,
  leb, ltb, map, ok, arith, Bool-cases, inl, inr, ap, ◌∙◌,
}
use rust_bash.Prelude.Bytes.{Bytes}
use rust_bash.Brace.Sequence.{
  check_limit, checked_add, count_loop, counted, numbers, format_padded, two_64, also_item,
}

-- The n numbers from `start`.
abbrev pub upto : ℕ → ℕ → List ℕ
upto start zero = []
upto start (suc n) = start ∷ upto (suc start) n

checked_add_one : (v : ℕ) → checked_add 1 v ≡ (if ltb (suc v) two_64 then some (suc v) else none)
unfolding checked_add
checked_add_one v = let next : v + 1 ≡ suc v = omega arith in rw next refl

if_true : {A : Type 0} (b : Bool) (x y : A) → b ≡ true → (if b then x else y) ≡ x
if_true true x y h = refl
if_true false x y h = cc

module _ (end max : ℕ) (show : ℕ → Bytes) where
  count_loop-upto :
      (n fuel count val : ℕ)
      → val + n ≡ suc end
      → end < two_64
      → count + n < max
      → n < fuel
      → count_loop (λ v. leb v end) (checked_add 1) show max fuel count val
        ≡ ok (map show (upto val n))
  unfolding count_loop check_limit
  count_loop-upto n zero count val e b l f = absurd (omega arith)
  count_loop-upto zero (suc fuel) count val e b l f =
      let past : leb val end ≡ false = ground arith in rw past refl
  count_loop-upto (suc n) (suc fuel) count val e b l f =
      let inside : leb val end ≡ true = ground arith in
      let allowed : leb max (suc count) ≡ false = ground arith in
      elim (Bool-cases (ltb (suc val) two_64)) [
        | inl s ↦
            rw (inside, allowed, checked_add_one val, s)
              (ap (also_item (show val)) (
                count_loop-upto n fuel (suc count) (suc val) (omega arith) b (omega arith)
                  (omega arith)))
        | inr s ↦
            rw (inside, allowed, checked_add_one val, s)
              (let last : n ≡ 0 = ground arith in rw last refl)
      ]

-- Counting up by one gives every number from `start` to `start + n` once, in order, where both are in range
-- of `i64` and there are fewer of them than `max_results`.
pub numbers-upto :
    (start n width max : ℕ)
    → start + n < two_64
    → suc n < max
    → numbers start (start + n) 1 width max ≡ ok (map (format_padded width) (upto start (suc n)))
unfolding numbers counted
numbers-upto start n width max b l =
    let up : leb start (start + n) ≡ true = ground arith in
    if_true (leb start (start + n)) _ _ up
    ∙ count_loop-upto (start + n) max (format_padded width) (suc n) (suc max) 0 start (omega arith)
        b (omega arith) (omega arith)
