-- ===== src/Tests/Arithmetic.antt =====
-- Runs of src/interpreter/arithmetic.rs, with inputs of its unit tests among them.
use rust_bash.Prelude.{
  ◌≡◌, refl, ap, sym, ℕ, zero, suc, ◌+◌, ◌*◌, ◌-◌, ◌%◌, ◌^◌, ◌<◌, List, [], ◌∷◌, true, false,
  Option, none, some, arith, get_elem?, ok,
}
use rust_bash.Prelude.Bytes.{Bytes, codes}
use rust_bash.Arith.Word.{
  apply_binary_arith, divide, modulo, add, multiply, subtract, power, shift_right, less,
  wrapping_pow, wrapping_add, wrapping_mul, unsigned_abs,
}
use rust_bash.Arith.Division.{divide-modulo}
use rust_bash.Arith.Power.{wrapping_pow-pow}
use rust_bash.Arith.Syntax.{
  literal, assignment, binary_op, unary_op, unary_minus, binary_assignment, unary_assignment,
  variable, array_element, prefix_increment, postfix_increment, prefix_decrement, postfix_decrement,
}
use rust_bash.Arith.Store.{Store}
use rust_bash.Arith.Eval.{eval, mapped}
use rust_bash.Arith.Assign.{unary_assignment-binary_assignment}
use rust_bash.Arith.Exact.{of_literal, of_minus, of_multiply, eval-Exact}

-- `-7 / 2` and `-7 % 2`, `-8 >> 1`, `-1 < 0` and the least number by -1.
abbrev minus : ℕ → ℕ
minus n = 2 ^ 64 - n

quotient_run : apply_binary_arith divide (minus 7) 2 ≡ ok (minus 3)
unfolding apply_binary_arith
quotient_run = refl

remainder_run : apply_binary_arith modulo (minus 7) 2 ≡ ok (minus 1)
unfolding apply_binary_arith
remainder_run = refl

least_run : apply_binary_arith divide (2 ^ 63) (minus 1) ≡ ok (2 ^ 63)
unfolding apply_binary_arith
least_run = refl

shift_run : apply_binary_arith shift_right (minus 8) 1 ≡ ok (minus 4)
unfolding apply_binary_arith
shift_run = refl

less_run : apply_binary_arith less (minus 1) 0 ≡ ok 1
unfolding apply_binary_arith
less_run = refl

power_run : apply_binary_arith power 3 41 ≡ ok (3 ^ 41 % 2 ^ 64)
unfolding apply_binary_arith
power_run = refl

wrapping_pow-pow_example : wrapping_pow 3 41 ≡ ok (3 ^ 41 % 2 ^ 64)
wrapping_pow-pow_example = wrapping_pow-pow 3 41 (omega arith)

divide-modulo_example :
    (q r : ℕ) × (apply_binary_arith divide (2 ^ 64 - 7) 2 ≡ ok q)
    × (apply_binary_arith modulo (2 ^ 64 - 7) 2 ≡ ok r)
    × (wrapping_add (wrapping_mul q 2) r ≡ 2 ^ 64 - 7)
    × (unsigned_abs r < unsigned_abs 2)
divide-modulo_example = divide-modulo (2 ^ 64 - 7) 2 (omega arith) (omega arith) (omega arith)

-- One variable and one array.
pub record Shell : Type 0 where
  count : ℕ
  values : List ℕ

abbrev set_at : ℕ → ℕ → List ℕ → List ℕ
set_at i v [] = []
set_at zero v (x ∷ xs) = v ∷ xs
set_at (suc i) v (x ∷ xs) = x ∷ set_at i v xs

abbrev element : Option ℕ → ℕ
element none = 0
element (some v) = v

abbrev pub shell : Store Shell
shell = record {
  resolve_nameref_or_self = λ s name. name;
  is_assoc_array = λ s name. false;
  nounset = λ s. false;
  contains_key = λ s name. true;
  read_var = λ s name. (ok s.count, s);
  set_variable = λ s name v. (ok tt, record { count = v; values = s.values });
  read_assoc_element = λ s name key. (ok 0, s);
  set_assoc_element = λ s name key v. (ok tt, s);
  read_indexed_element = λ s name i. (ok (element (get_elem? s.values i)), s);
  write_indexed_element =
      λ s name i v. (ok tt, record { count = s.count; values = set_at i v s.values });
}

abbrev no_keys : Bytes → Option Bytes
no_keys name = none

abbrev pub at_start : Shell
at_start = record { count = 0; values = 5 ∷ 7 ∷ [] }

-- `a[i++] += 1` evaluates its index twice: it reads `a[0]` and writes `a[1]`.
index_twice :
    eval shell no_keys
      (binary_assignment add
        (array_element (codes "a") (unary_assignment postfix_increment (variable (codes "i"))))
        (literal 1))
      at_start
    ≡ (ok 6, record { count = 2; values = 5 ∷ 6 ∷ [] })
unfolding eval
index_twice = refl

eval-Exact_example :
    (v : ℕ) × (eval shell no_keys
        (binary_op multiply (unary_op unary_minus (literal 3)) (literal 4))
        at_start
      ≡ (ok v, at_start))
    × (v < 2 ^ 64)
    × ((v + (0 * 0 + 3 * 4)) % 2 ^ 64 ≡ (0 * 4 + 3 * 0) % 2 ^ 64)
eval-Exact_example =
    eval-Exact shell no_keys at_start
      (binary_op multiply (unary_op unary_minus (literal 3)) (literal 4)) (0 * 4 + 3 * 0)
      (0 * 0 + 3 * 4)
      (of_multiply (unary_op unary_minus (literal 3)) (literal 4) 0 3 4 0
        (of_minus (literal 3) 3 0 (of_literal 3 (omega arith))) (of_literal 4 (omega arith)))

reads_back :
    (w : ℕ) (s1 s2 : Shell)
    → shell.set_variable s1 (codes "i") w ≡ (ok tt, s2)
    → shell.read_var s2 (codes "i") ≡ (ok w, s2)
reads_back w s1 s2 h =
    let same : s2.count ≡ w = ap (λ r. (r.1).count) (sym h) in ap (λ c. (ok c, s2)) same

plain_name : mapped (codes "i") ≡ codes "i"
unfolding mapped
plain_name = refl

assigned :
    eval shell no_keys (assignment (variable (codes "i")) (literal 9)) at_start
    ≡ (ok 9, record { count = 9; values = 5 ∷ 7 ∷ [] })
unfolding eval
assigned = refl

unary_assignment-binary_assignment_example :
    (eval shell no_keys (unary_assignment prefix_increment (variable (codes "i"))) at_start
      ≡ eval shell no_keys (binary_assignment add (variable (codes "i")) (literal 1)) at_start)
    × (eval shell no_keys (unary_assignment prefix_decrement (variable (codes "i"))) at_start
        ≡ eval shell no_keys
            (binary_assignment subtract (variable (codes "i")) (literal 1))
            at_start)
    × ((eval shell no_keys (unary_assignment postfix_increment (variable (codes "i"))) at_start).1
        ≡ (eval shell no_keys
            (binary_assignment add (variable (codes "i")) (literal 1))
            at_start).1)
    × ((eval shell no_keys (unary_assignment postfix_decrement (variable (codes "i"))) at_start).1
        ≡ (eval shell no_keys
            (binary_assignment subtract (variable (codes "i")) (literal 1))
            at_start).1)
unary_assignment-binary_assignment_example =
    unary_assignment-binary_assignment shell no_keys (variable (codes "i")) at_start
