-- ===== src/Arith/Word.antt =====
-- src/interpreter/arithmetic.rs: the operators. An `i64` is its 64-bit pattern, a ℕ below 2 ^ 64.
use Prim.Native.Nat.{bit_and, bit_or, bit_xor}
use Prim.Native.String.{String}
use rust_bash.Prelude.{
  ℕ, zero, suc, ◌+◌, ◌-◌, ◌*◌, ◌/◌, ◌%◌, ◌^◌, Bool, not, if◌then◌else◌, ◌==◌, ltb, leb, Result, ok,
  err,
}
use rust_bash.Prelude.Bytes.{codes}
use rust_bash.Brace.Sequence.{RustBashError, execution, out_of_fuel}

abbrev pub is_negative : ℕ → Bool
is_negative a = leb (2 ^ 63) a

unfoldable pub unsigned_abs : ℕ → ℕ
unsigned_abs a = if is_negative a then 2 ^ 64 - a else a

unfoldable pub wrapping_neg : ℕ → ℕ
wrapping_neg a = (2 ^ 64 - a) % 2 ^ 64

unfoldable pub wrapping_add : ℕ → ℕ → ℕ
wrapping_add a b = (a + b) % 2 ^ 64

unfoldable pub wrapping_sub : ℕ → ℕ → ℕ
wrapping_sub a b = (a + (2 ^ 64 - b)) % 2 ^ 64

unfoldable pub wrapping_mul : ℕ → ℕ → ℕ
wrapping_mul a b = (a * b) % 2 ^ 64

-- Rounded to zero; the least `i64` by -1 is itself.
unfoldable pub wrapping_div : ℕ → ℕ → ℕ
unfolding unsigned_abs wrapping_neg
wrapping_div a b =
    let q = unsigned_abs a / unsigned_abs b in
    if is_negative a
    then (if is_negative b then q else wrapping_neg q)
    else if is_negative b
    then wrapping_neg q
    else q

-- The sign is that of the dividend.
unfoldable pub wrapping_rem : ℕ → ℕ → ℕ
unfolding unsigned_abs wrapping_neg
wrapping_rem a b =
    let r = unsigned_abs a % unsigned_abs b in if is_negative a then wrapping_neg r else r

-- `rhs as u32` and its low six bits.
abbrev pub shift_count : ℕ → ℕ
shift_count b = b % 2 ^ 32 % 64

unfoldable pub wrapping_shl : ℕ → ℕ → ℕ
wrapping_shl a b = (a * 2 ^ shift_count b) % 2 ^ 64

unfoldable pub bitwise_not : ℕ → ℕ
bitwise_not a = 2 ^ 64 - 1 - a

unfoldable pub wrapping_shr : ℕ → ℕ → ℕ
unfolding bitwise_not
wrapping_shr a b =
    if is_negative a then bitwise_not (bitwise_not a / 2 ^ shift_count b) else a / 2 ^ shift_count b

-- `<` of `i64`: the order of the patterns with the sign bit turned over.
unfoldable pub less_than : ℕ → ℕ → Bool
less_than a b = ltb ((a + 2 ^ 63) % 2 ^ 64) ((b + 2 ^ 63) % 2 ^ 64)

abbrev pub from_bool : Bool → ℕ
from_bool b = if b then 1 else 0

-- The loop of `wrapping_pow`. An exponent has 63 bits.
unfoldable pub pow_loop : ℕ → ℕ → ℕ → ℕ → Result ℕ RustBashError
unfolding wrapping_mul
pow_loop zero exp base result = if exp == 0 then ok result else err out_of_fuel
pow_loop (suc fuel) exp base result =
    let rest =
      pow_loop fuel (exp / 2) (wrapping_mul base base)
        (if exp % 2 == 1 then wrapping_mul result base else result) in
    if exp == 0 then ok result else rest

abbrev pub failure : String → Result ℕ RustBashError
failure message = err (execution (codes message))

unfoldable pub wrapping_pow : ℕ → ℕ → Result ℕ RustBashError
unfolding pow_loop
wrapping_pow base exp =
    if is_negative exp then failure "arithmetic: exponent less than 0" else pow_loop 63 exp base 1

pub data BinaryOperator : Type 0 where
  comma : BinaryOperator
  logical_or : BinaryOperator
  logical_and : BinaryOperator
  bitwise_or : BinaryOperator
  bitwise_xor : BinaryOperator
  bitwise_and : BinaryOperator
  equals : BinaryOperator
  not_equals : BinaryOperator
  less : BinaryOperator
  greater : BinaryOperator
  less_or_equal : BinaryOperator
  greater_or_equal : BinaryOperator
  shift_left : BinaryOperator
  shift_right : BinaryOperator
  add : BinaryOperator
  subtract : BinaryOperator
  multiply : BinaryOperator
  modulo : BinaryOperator
  divide : BinaryOperator
  power : BinaryOperator

-- The last arm of the source cannot be reached: `eval_binary` takes those operators out.
unfoldable pub apply_binary_arith : BinaryOperator → ℕ → ℕ → Result ℕ RustBashError
unfolding wrapping_add wrapping_sub wrapping_mul wrapping_div wrapping_rem wrapping_pow wrapping_shl
    wrapping_shr less_than
apply_binary_arith add l r = ok (wrapping_add l r)
apply_binary_arith subtract l r = ok (wrapping_sub l r)
apply_binary_arith multiply l r = ok (wrapping_mul l r)
apply_binary_arith divide l r =
    if r == 0 then failure "arithmetic: division by zero" else ok (wrapping_div l r)
apply_binary_arith modulo l r =
    if r == 0 then failure "arithmetic: division by zero" else ok (wrapping_rem l r)
apply_binary_arith power l r = wrapping_pow l r
apply_binary_arith shift_left l r = ok (wrapping_shl l r)
apply_binary_arith shift_right l r = ok (wrapping_shr l r)
apply_binary_arith bitwise_and l r = ok (bit_and l r)
apply_binary_arith bitwise_or l r = ok (bit_or l r)
apply_binary_arith bitwise_xor l r = ok (bit_xor l r)
apply_binary_arith equals l r = ok (from_bool (l == r))
apply_binary_arith not_equals l r = ok (from_bool (not (l == r)))
apply_binary_arith less l r = ok (from_bool (less_than l r))
apply_binary_arith greater l r = ok (from_bool (less_than r l))
apply_binary_arith less_or_equal l r = ok (from_bool (not (less_than r l)))
apply_binary_arith greater_or_equal l r = ok (from_bool (not (less_than l r)))
apply_binary_arith _ l r = failure "unreachable"
