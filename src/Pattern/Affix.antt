-- ===== src/Pattern/Affix.antt =====
-- src/interpreter/pattern.rs: the searches for a suffix or a prefix that matches. `test` is the call
-- `do_match(pattern, …, extglob)`, or `do_match_bytes_with_mode` in byte mode.
pub mod Laws
use rust_bash.Prelude.{
  ◌≡◌, ◌≢◌, refl, ℕ, zero, suc, ◌+◌, ◌≤◌, ◌<◌, Bool, true, false, not, ◌&&◌, Option, none, some,
  if◌then◌else◌, ◌==◌, arith, length, drop, take, get_elem?, Bool-cases, inl, inr,
}
use rust_bash.Prelude.Bytes.{Bytes}
use rust_bash.Pattern.Class.{in_range}

-- `for i in from..` over n indices, with the first that passes, and `for i in (0..n).rev()`.
unfoldable pub ascending : (ℕ → Bool) → ℕ → ℕ → Option ℕ
ascending passes zero i = none
ascending passes (suc n) i =
    let rest = ascending passes n (suc i) in if passes i then some i else rest

unfoldable pub descending : (ℕ → Bool) → ℕ → Option ℕ
descending passes zero = none
descending passes (suc i) = let rest = descending passes i in if passes i then some i else rest

-- `str::is_char_boundary`: the start, the end, and where no continuation byte stands.
unfoldable pub is_char_boundary : Bytes → ℕ → Bool
is_char_boundary text zero = true
is_char_boundary text (suc i) = elim (get_elem? text (suc i)) [
  | none ↦ suc i == length text
  | some b ↦ not (in_range 0x80 0xBF b)
]

unfoldable pub suffix_passes : (Bytes → Bool) → Bytes → ℕ → Bool
suffix_passes test text i = is_char_boundary text i && test (drop i text)

unfoldable pub prefix_passes : (Bytes → Bool) → Bytes → ℕ → Bool
prefix_passes test text i = is_char_boundary text i && test (take i text)

unfoldable pub shortest_suffix_match_ext : (Bytes → Bool) → Bytes → Option ℕ
unfolding descending suffix_passes
shortest_suffix_match_ext test text = descending (suffix_passes test text) (suc (length text))

unfoldable pub longest_suffix_match_ext_with_mode : (Bytes → Bool) → Bytes → Bool → Option ℕ
unfolding ascending suffix_passes
longest_suffix_match_ext_with_mode test text true =
    ascending (λ i. test (drop i text)) (suc (length text)) 0
longest_suffix_match_ext_with_mode test text false =
    ascending (suffix_passes test text) (suc (length text)) 0

unfoldable pub shortest_prefix_match_ext : (Bytes → Bool) → Bytes → Option ℕ
unfolding ascending prefix_passes
shortest_prefix_match_ext test text = ascending (prefix_passes test text) (suc (length text)) 0

unfoldable pub longest_prefix_match_ext_with_mode : (Bytes → Bool) → Bytes → Bool → Option ℕ
unfolding descending prefix_passes
longest_prefix_match_ext_with_mode test text true =
    descending (λ i. test (take i text)) (suc (length text))
longest_prefix_match_ext_with_mode test text false =
    descending (prefix_passes test text) (suc (length text))
