-- ===== src/Tests/Braces.antt =====
-- Runs of `brace_expand` of src/interpreter/brace.rs, with inputs of its unit tests among them.
use rust_bash.Prelude.{◌≡◌, refl, [], ◌∷◌, ok, err, ℕ}
use rust_bash.Prelude.Bytes.{Bytes, codes}
use rust_bash.Brace.Scan.{
  special, skip_dollar, skip_dollar_brace, find_matching_close, find_brace_pair, split_alternatives,
}
use rust_bash.Brace.Sequence.{
  limit_exceeded, try_sequence_expansion, checked_add, checked_sub, checked_add_u32, format_padded,
  to_decimal, i64_to_string,
}
use rust_bash.Brace.Expand.{Expanded, brace_expand}
use rust_bash.Brace.Slices.{find_brace_pair-Splits, Splits, commas, commas-split_alternatives}
use rust_bash.Brace.Limit.{brace_expand-Within, WithinLimit}
use rust_bash.Brace.Fuel.{brace_expand-Ends, Ends}

run_to : ℕ → Bytes → Expanded
unfolding brace_expand find_brace_pair special skip_dollar skip_dollar_brace find_matching_close
    split_alternatives try_sequence_expansion checked_add checked_sub checked_add_u32 format_padded
    to_decimal i64_to_string
run_to max input = brace_expand input max

run : Bytes → Expanded
unfolding run_to
run = run_to 50

alternation : run (codes "file{1,2}.txt") ≡ ok (codes "file1.txt" ∷ codes "file2.txt" ∷ [])
unfolding run
alternation = refl

nested : run (codes "{a,b{1,2}}") ≡ ok (codes "a" ∷ codes "b1" ∷ codes "b2" ∷ [])
unfolding run
nested = refl

range : run (codes "{01..3}") ≡ ok (codes "01" ∷ codes "02" ∷ codes "03" ∷ [])
unfolding run
range = refl

downwards : run (codes "{1..-3..2}") ≡ ok (codes "1" ∷ codes "-1" ∷ codes "-3" ∷ [])
unfolding run
downwards = refl

letters : run (codes "x{c..a}") ≡ ok (codes "xc" ∷ codes "xb" ∷ codes "xa" ∷ [])
unfolding run
letters = refl

literal : run (codes "{a}${b,c}") ≡ ok (codes "{a}${b,c}" ∷ [])
unfolding run
literal = refl

limited : run_to 3 (codes "{a,b,c}") ≡ err (limit_exceeded 3 3)
unfolding run_to
limited = refl

-- The least `i64` as a step: the size wraps, and the sequence goes the other way.
least_step :
    run (codes "{1..5..-9223372036854775808}") ≡ ok (codes "1" ∷ codes "-9223372036854775807" ∷ [])
unfolding run
least_step = refl

-- A step of 2 ^ 32 is cut to 0 for letters, so the first letter repeats until the limit.
cut_step : run_to 4 (codes "{a..e..4294967296}") ≡ err (limit_exceeded 4 4)
unfolding run_to
cut_step = refl

find_brace_pair-Splits_example : Splits (codes "a{b,c}d") (find_brace_pair 0 (codes "a{b,c}d"))
find_brace_pair-Splits_example = find_brace_pair-Splits 0 (codes "a{b,c}d")

commas-split_alternatives_example :
    commas (split_alternatives 0 0 (codes "a,{b,c},d")) ≡ codes "a,{b,c},d"
commas-split_alternatives_example = commas-split_alternatives 0 0 (codes "a,{b,c},d")

brace_expand-Within_example : WithinLimit 9 (brace_expand (codes "{a,b{1,2}}") 9)
brace_expand-Within_example = brace_expand-Within (codes "{a,b{1,2}}") 9

brace_expand-Ends_example : Ends (brace_expand (codes "{a,b{1,2}}") 9)
brace_expand-Ends_example = brace_expand-Ends (codes "{a,b{1,2}}") 9
