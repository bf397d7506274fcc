-- ===== src/Pattern/Replace.antt =====
-- src/interpreter/pattern.rs: the first match in a text, and the replacement of every match. `test` is the call
-- `do_match_with_mode(pattern, …, extglob, byte_mode)`, or `do_match_bytes_with_mode` in byte mode.
pub mod Laws
pub mod First
use rust_bash.Prelude.{
  ℕ, zero, suc, ◌+◌, ◌-◌, List, [], ◌∷◌, ◌++◌, Bool, ◌&&◌, ◌||◌, Option, none, some, if◌then◌else◌,
  length, take, drop,
}
use rust_bash.Prelude.Bytes.{Bytes}
use rust_bash.Pattern.Glob.{utf8_char_len}
use rust_bash.Pattern.Affix.{descending, is_char_boundary}

-- Whether the bytes up to a cut may be tried, and pass.
unfoldable pub cut_passes : (Bytes → Bool) → Bool → Bytes → ℕ → Bool
unfolding is_char_boundary
cut_passes test byte_mode rest n = (byte_mode || is_char_boundary rest n) && test (take n rest)

-- `for end in (start..=text.len()).rev()` for what is behind `start`.
unfoldable pub match_from : (Bytes → Bool) → Bool → Bytes → Option ℕ
unfolding descending cut_passes
match_from test byte_mode rest = descending (cut_passes test byte_mode rest) (suc (length rest))

abbrev pub map_end : ℕ → Option ℕ → Option (ℕ × ℕ)
map_end start none = none
map_end start (some n) = some (start, start + n)

abbrev pub or_else : Option (ℕ × ℕ) → Option (ℕ × ℕ) → Option (ℕ × ℕ)
or_else none other = other
or_else (some found) other = some found

-- The outer loop of `first_match_ext_with_mode` at one start, and over n of them.
unfoldable pub first_at : (Bytes → Bool) → Bool → Bytes → ℕ → Option (ℕ × ℕ)
unfolding match_from
first_at test byte_mode text start =
    if byte_mode || is_char_boundary text start
    then map_end start (match_from test byte_mode (drop start text))
    else none

unfoldable pub first_loop : (Bytes → Bool) → Bool → Bytes → ℕ → ℕ → Option (ℕ × ℕ)
unfolding first_at
first_loop test byte_mode text zero start = none
first_loop test byte_mode text (suc n) start =
    let later = first_loop test byte_mode text n (suc start) in
    or_else (first_at test byte_mode text start) later

unfoldable pub first_match_ext_with_mode : (Bytes → Bool) → Bytes → Bool → Option (ℕ × ℕ)
unfolding first_loop
first_match_ext_with_mode test text byte_mode = first_loop test byte_mode text (suc (length text)) 0

-- `for end in (i + 1..=text.len()).rev()` for what is behind `i`, less one byte.
unfoldable pub longest_here : (Bytes → Bool) → Bool → Bytes → Option ℕ
unfolding descending cut_passes
longest_here test byte_mode rest =
    descending (λ n. cut_passes test byte_mode rest (suc n)) (length rest)

-- How far the loop goes on where nothing matches: `ch.len_utf8()`, or a byte.
abbrev pub step_over : Bool → ℕ → ℕ
step_over byte_mode c = if byte_mode then 1 else utf8_char_len c

abbrev pub emit : Bytes → Option Bytes → Option Bytes
emit front none = none
emit front (some out) = some (front ++ out)

unfoldable pub replace_loop : (Bytes → Bool) → Bytes → Bool → ℕ → Bytes → Option Bytes
unfolding longest_here utf8_char_len
replace_loop test replacement byte_mode fuel [] = some []
replace_loop test replacement byte_mode zero (c ∷ s) = none
replace_loop test replacement byte_mode (suc fuel) (c ∷ s) =
    elim (longest_here test byte_mode (c ∷ s)) [
      | some n ↦ emit replacement (replace_loop test replacement byte_mode fuel (drop n s))
      | none ↦
          emit (take (step_over byte_mode c) (c ∷ s))
            (replace_loop test replacement byte_mode fuel (drop (step_over byte_mode c) (c ∷ s)))
    ]

-- Byte mode reads its result with `String::from_utf8_lossy`.
unfoldable pub replace_all_ext_with_mode :
    (Bytes → Bytes) → (Bytes → Bool) → Bytes → Bytes → Bool → Option Bytes
unfolding replace_loop
replace_all_ext_with_mode from_utf8_lossy test text replacement byte_mode =
    elim (replace_loop test replacement byte_mode (length text) text) [
      | some out ↦ some (if byte_mode then from_utf8_lossy out else out)
      | none ↦ none
    ]
