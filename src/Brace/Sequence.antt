-- ===== src/Brace/Sequence.antt =====
-- src/interpreter/brace.rs: sequence expressions. An `i64` is the ℕ that is 2 ^ 63 above it, so that
-- comparison is that of ℕ; a step is its 64-bit pattern.
use rust_bash.Prelude.{
  ℕ, zero, suc, ◌+◌, ◌-◌, ◌*◌, ◌/◌, ◌%◌, List, [], ◌∷◌, ◌++◌, Bool, not, ◌&&◌, ◌||◌, Option, none,
  some, if◌then◌else◌, ◌==◌, ltb, leb, length, Result, ok, err, ◌>>=◌, ◌>>◌,
}
use rust_bash.Prelude.Bytes.{Bytes, codes}
use rust_bash.Pattern.Class.{is_digit, is_lower, is_upper, is_alphabetic}
use rust_bash.Vfs.Path.{cons_head}

pub data RustBashError : Type 0 where
  -- The limit and the count.
  limit_exceeded : ℕ → ℕ → RustBashError
  expansion_error : Bytes → RustBashError
  execution : Bytes → RustBashError
  -- Of the model: a loop ran out of rounds.
  out_of_fuel : RustBashError

unfoldable pub check_limit : ℕ → ℕ → Result (Unit {0}) RustBashError
check_limit count max = if leb max count then err (limit_exceeded max count) else ok tt

abbrev pub i64_zero : ℕ
i64_zero = 9223372036854775808

abbrev pub two_64 : ℕ
two_64 = 18446744073709551616

-- `body.split("..")`
unfoldable pub split_dots : Bytes → List Bytes
split_dots [] = [] ∷ []
split_dots (c ∷ []) = (c ∷ []) ∷ []
split_dots (c ∷ d ∷ p) =
    let behind = split_dots p in
    let rest = split_dots (d ∷ p) in
    if c == b'.' && d == b'.' then [] ∷ behind else cons_head c rest

-- The value of a run of digits, read from the left.
unfoldable pub decimal : ℕ → Bytes → Option ℕ
decimal n [] = some n
decimal n (c ∷ p) = let rest = decimal (10 * n + (c - b'0')) p in if is_digit c then rest else none

abbrev pub magnitude : Bytes → Option ℕ
magnitude [] = none
magnitude (c ∷ p) = decimal 0 (c ∷ p)

abbrev pub positive : Option ℕ → Option ℕ
positive none = none
positive (some n) = if ltb n i64_zero then some (i64_zero + n) else none

abbrev pub negative : Option ℕ → Option ℕ
negative none = none
negative (some n) = if leb n i64_zero then some (i64_zero - n) else none

-- `parse::<i64>()`
unfoldable pub parse_i64 : Bytes → Option ℕ
unfolding decimal
parse_i64 [] = none
parse_i64 (c ∷ p) =
    if c == b'-'
    then negative (magnitude p)
    else if c == b'+'
    then positive (magnitude p)
    else positive (magnitude (c ∷ p))

-- `step.unsigned_abs().max(1)`
unfoldable pub step_size : ℕ → ℕ
step_size v = if v == i64_zero then 1 else if ltb v i64_zero then i64_zero - v else v - i64_zero

-- `i64::checked_add` and `i64::checked_sub`; a step of 2 ^ 63 is the least `i64`.
unfoldable pub checked_add : ℕ → ℕ → Option ℕ
checked_add s v =
    if ltb s i64_zero
    then (if ltb (v + s) two_64 then some (v + s) else none)
    else if leb two_64 (v + s)
    then some (v + s - two_64)
    else none

unfoldable pub checked_sub : ℕ → ℕ → Option ℕ
checked_sub s v =
    if ltb s i64_zero
    then (if leb s v then some (v - s) else none)
    else if ltb (v + (two_64 - s)) two_64
    then some (v + (two_64 - s))
    else none

-- `u32::checked_add` with `step as u32`.
unfoldable pub checked_add_u32 : ℕ → ℕ → Option ℕ
checked_add_u32 s v = let sum = v + s % 4294967296 in if ltb sum 4294967296 then some sum else none

abbrev pub also_item : Bytes → Result (List Bytes) RustBashError → Result (List Bytes) RustBashError
also_item x r = r >>= λ items. ok (x ∷ items)

-- The four `while val … end` loops: the test, the next value if it does not overflow, the text of a value,
-- and the number of results so far.
unfoldable pub count_loop :
    (ℕ → Bool) → (ℕ → Option ℕ) → (ℕ → Bytes) → ℕ → ℕ → ℕ → ℕ → Result (List Bytes) RustBashError
unfolding check_limit
count_loop goes_on next show max zero count val = err out_of_fuel
count_loop goes_on next show max (suc fuel) count val =
    if goes_on val
    then check_limit (suc count) max >> elim (next val) [
      | none ↦ ok (show val ∷ [])
      | some v ↦ also_item (show val) (count_loop goes_on next show max fuel (suc count) v)
    ]
    else ok []

-- The fuel is one round more than the limit.
unfoldable pub counted :
    (ℕ → Bool) → (ℕ → Option ℕ) → (ℕ → Bytes) → ℕ → ℕ → Result (List Bytes) RustBashError
unfolding count_loop
counted goes_on next show max val = count_loop goes_on next show max (suc max) 0 val

-- The digits of n, the last first, in front of `behind`.
unfoldable pub digits : ℕ → ℕ → Bytes → Bytes
digits zero n behind = behind
digits (suc fuel) n behind =
    let here = (b'0' + n % 10) ∷ behind in
    let more = digits fuel (n / 10) here in if ltb n 10 then here else more

-- A 64-bit number has 20 digits at most.
unfoldable pub to_decimal : ℕ → Bytes
unfolding digits
to_decimal n = digits 20 n []

unfoldable pub zeros : ℕ → Bytes
zeros zero = []
zeros (suc n) = b'0' ∷ zeros n

-- `{:0>width$}`
abbrev pub pad : ℕ → Bytes → Bytes
pad width s = zeros (width - length s) ++ s

-- `val.to_string()`
unfoldable pub i64_to_string : ℕ → Bytes
i64_to_string v =
    if ltb v i64_zero then b'-' ∷ to_decimal (i64_zero - v) else to_decimal (v - i64_zero)

-- `-val`, which wraps at the least `i64` as release builds do.
abbrev pub wrapping_neg : ℕ → ℕ
wrapping_neg v = if v == 0 then 0 else two_64 - v

unfoldable pub format_padded : ℕ → ℕ → Bytes
unfolding zeros
format_padded width v =
    if ltb 0 width
    then (if ltb v i64_zero
        then b'-' ∷ pad width (i64_to_string (wrapping_neg v))
        else pad width (i64_to_string v))
    else i64_to_string v

abbrev pub without_sign : Bytes → Bytes
without_sign [] = []
without_sign (c ∷ p) = if c == b'-' then p else c ∷ p

unfoldable pub zero_pad_width : Bytes → ℕ
zero_pad_width s = elim (without_sign s) [
  | [] ↦ 0
  | c ∷ p ↦ if ltb 0 (length p) && c == b'0' then suc (length p) else 0
]

-- A character of several bytes is in none of the classes that the caller asks for, so `none` serves.
unfoldable pub parse_single_char : Bytes → Option ℕ
parse_single_char [] = none
parse_single_char (c ∷ []) = some c
parse_single_char (c ∷ d ∷ p) = none

abbrev pub some_items :
    Result (List Bytes) RustBashError → Result (Option (List Bytes)) RustBashError
some_items r = r >>= λ items. ok (some items)

-- The step: 1 where none is written, and none where it is not a number.
unfoldable pub step_of : Option Bytes → Option ℕ
unfolding parse_i64 step_size
step_of none = some 1
step_of (some text) = elim (parse_i64 text) [ none ↦ none | some v ↦ some (step_size v) ]

unfoldable pub numbers : ℕ → ℕ → ℕ → ℕ → ℕ → Result (List Bytes) RustBashError
unfolding counted
numbers start end step width max =
    if leb start end
    then counted (λ v. leb v end) (checked_add step) (format_padded width) max start
    else counted (λ v. leb end v) (checked_sub step) (format_padded width) max start

unfoldable pub characters : ℕ → ℕ → ℕ → ℕ → Result (List Bytes) RustBashError
unfolding counted
characters start end step max =
    if leb start end
    then counted (λ v. leb v end) (checked_add_u32 step) (λ v. v ∷ []) max start
    else counted (λ v. leb (i64_zero + end) v) (checked_sub step) (λ v. (v - i64_zero) ∷ []) max
        (i64_zero + start)

-- A step that is no number ends the attempt.
abbrev pub in_steps :
    (ℕ → Result (List Bytes) RustBashError) → Option ℕ → Result (Option (List Bytes)) RustBashError
in_steps f none = ok none
in_steps f (some step) = some_items (f step)

unfoldable pub number_sequence :
    Bytes → Bytes → Option Bytes → ℕ → ℕ → ℕ → Result (Option (List Bytes)) RustBashError
unfolding step_of numbers zero_pad_width
number_sequence first last step_text start end max =
    let w = zero_pad_width first in
    let x = zero_pad_width last in
    in_steps (λ step. numbers start end step (if ltb w x then x else w) max) (step_of step_text)

abbrev pub same_class : ℕ → ℕ → Bool
same_class a b = is_digit a && is_digit b || is_lower a && is_lower b || is_upper a && is_upper b

abbrev pub mixed_case : ℕ → ℕ → Bool
mixed_case a b =
    is_alphabetic a && is_alphabetic b && (if is_lower a then not (is_lower b) else is_lower b)

abbrev pub bad_brace_expansion : Bytes → Result (Option (List Bytes)) RustBashError
bad_brace_expansion body = err (expansion_error (b'{' ∷ body ++ codes "}: bad brace expansion"))

unfoldable pub character_sequence :
    Bytes → Option Bytes → ℕ → ℕ → ℕ → Result (Option (List Bytes)) RustBashError
unfolding step_of characters
character_sequence body step_text start end max =
    if mixed_case start end
    then bad_brace_expansion body
    else if same_class start end
    then in_steps (λ step. characters start end step max) (step_of step_text)
    else ok none

abbrev pub both : Option ℕ → Option ℕ → Option (ℕ × ℕ)
both (some a) (some b) = some (a, b)
both (some a) none = none
both none b = none

-- `try_sequence_expansion` behind the split.
unfoldable pub sequence :
    Bytes → Bytes → Bytes → Option Bytes → ℕ → Result (Option (List Bytes)) RustBashError
unfolding number_sequence character_sequence parse_single_char
sequence body first last step_text max = elim (both (parse_i64 first) (parse_i64 last)) [
  | some (start, end) ↦ number_sequence first last step_text start end max
  | none ↦ elim (both (parse_single_char first) (parse_single_char last)) [
    | some (a, b) ↦ character_sequence body step_text a b max
    | none ↦ ok none
  ]
]

abbrev pub of_parts : Bytes → ℕ → List Bytes → Result (Option (List Bytes)) RustBashError
of_parts body max [] = ok none
of_parts body max (first ∷ []) = ok none
of_parts body max (first ∷ last ∷ []) = sequence body first last none max
of_parts body max (first ∷ last ∷ step ∷ []) = sequence body first last (some step) max
of_parts body max (first ∷ last ∷ step ∷ more ∷ parts) = ok none

unfoldable pub try_sequence_expansion : Bytes → ℕ → Result (Option (List Bytes)) RustBashError
unfolding split_dots sequence
try_sequence_expansion body max = of_parts body max (split_dots body)
