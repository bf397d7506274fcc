-- ===== src/Pattern/Replace/Laws.antt =====
-- src/interpreter/pattern.rs: what `first_match_ext_with_mode` finds and what `replace_all_ext_with_mode` makes.
use rust_bash.Prelude.{
  length-drop, ◌≡◌, refl, ℕ, zero, suc, ◌≤◌, ◌<◌, [], ◌∷◌, ◌++◌, Bool, true, false, Option, none,
  some, arith, length, take, drop, Option-cases, inl, inr,
}
use rust_bash.Prelude.Bytes.{Bytes}
use rust_bash.Pattern.Glob.{utf8_char_len}
use rust_bash.Pattern.Affix.Laws.{descending_sound, descending_last, descending-none}
use rust_bash.Pattern.Replace.{
  cut_passes, longest_here, step_over, replace_loop, replace_all_ext_with_mode,
}

utf8_char_len_positive : (c : ℕ) → 1 ≤ utf8_char_len c
unfolding utf8_char_len
utf8_char_len_positive c = ground arith

step_over_positive : (byte_mode : Bool) (c : ℕ) → 1 ≤ step_over byte_mode c
step_over_positive true c = omega arith
step_over_positive false c = utf8_char_len_positive c

module _ (test : Bytes → Bool) (replacement : Bytes) (byte_mode : Bool) where
  -- The text cut into matches, each the longest of those that start there, and characters at which none starts.
  pub data Replaced : Bytes → Bytes → Type 0 where
    done : Replaced [] []
    hit :
        (n : ℕ) (s out : Bytes)
        → 1 ≤ n
        → n ≤ length s
        → cut_passes test byte_mode s n ≡ true
        → ((k : ℕ) → n < k → k ≤ length s → cut_passes test byte_mode s k ≡ false)
        → Replaced (drop n s) out
        → Replaced s (replacement ++ out)
    miss :
        (c : ℕ) (s out : Bytes)
        → ((k : ℕ) → 1 ≤ k → k ≤ suc (length s) → cut_passes test byte_mode (c ∷ s) k ≡ false)
        → Replaced (drop (step_over byte_mode c) (c ∷ s)) out
        → Replaced (c ∷ s) (take (step_over byte_mode c) (c ∷ s) ++ out)

  abbrev Result : Option Bytes → Bytes → Type 0
  Result o s = (out : Bytes) × (o ≡ some out) × Replaced s out

  not_here :
      (c : ℕ) (s : Bytes)
      → longest_here test byte_mode (c ∷ s) ≡ none
      → (k : ℕ) → 1 ≤ k
      → k ≤ suc (length s)
      → cut_passes test byte_mode (c ∷ s) k ≡ false
  unfolding longest_here
  not_here c s e zero l u = absurd (omega arith)
  not_here c s e (suc k) l u =
      descending-none (λ n. cut_passes test byte_mode (c ∷ s) (suc n)) (suc (length s)) k e
        (omega arith)

  no_longer :
      (c : ℕ) (s : Bytes) (n : ℕ)
      → longest_here test byte_mode (c ∷ s) ≡ some n
      → (k : ℕ) → suc n < k
      → k ≤ suc (length s)
      → cut_passes test byte_mode (c ∷ s) k ≡ false
  unfolding longest_here
  no_longer c s n e zero l u = absurd (omega arith)
  no_longer c s n e (suc k) l u =
      descending_last (λ m. cut_passes test byte_mode (c ∷ s) (suc m)) (suc (length s)) n k e
        (omega arith) (omega arith)

  longest_hit :
      (c : ℕ) (s out : Bytes) (n : ℕ)
      → longest_here test byte_mode (c ∷ s) ≡ some n
      → Replaced (drop n s) out
      → Replaced (c ∷ s) (replacement ++ out)
  unfolding longest_here
  longest_hit c s out n e r =
      let passes : ℕ → Bool = λ k. cut_passes test byte_mode (c ∷ s) (suc k) in
      let (p, u) = descending_sound passes (suc (length s)) n e in
      hit (suc n) (c ∷ s) out (omega arith) (omega arith) p (no_longer c s n e) r

  replace_loop-Replaced :
      (fuel : ℕ) (s : Bytes)
      → length s ≤ fuel
      → Result (replace_loop test replacement byte_mode fuel s) s
  unfolding replace_loop
  replace_loop-Replaced fuel [] h = ([], refl, done)
  replace_loop-Replaced zero (c ∷ s) h = absurd (omega arith)
  replace_loop-Replaced (suc fuel) (c ∷ s) h =
      elim (Option-cases (longest_here test byte_mode (c ∷ s))) [
        | inl e ↦
            let rest = drop (step_over byte_mode c) (c ∷ s) in
            let (out, eq, r) = replace_loop-Replaced fuel rest (
              omega (
                arith,
                length-drop (step_over byte_mode c) (c ∷ s),
                step_over_positive byte_mode c,
              )) in
            (
              take (step_over byte_mode c) (c ∷ s) ++ out,
              rw (replace_loop, e, eq) refl,
              miss c s out (not_here c s e) r,
            )
        | inr (n, e) ↦
            let (out, eq, r) =
              replace_loop-Replaced fuel (drop n s) (omega (arith, length-drop n s)) in
            (replacement ++ out, rw (replace_loop, e, eq) refl, longest_hit c s out n e r)
      ]

module _ (from_utf8_lossy : Bytes → Bytes) (test : Bytes → Bool) (replacement : Bytes) where
  -- Outside byte mode, `replace_all_ext_with_mode` ends, and its result is the text with a replacement for each
  -- match: from the left, each match the longest nonempty one where it starts, and no match starts at a
  -- character that stays.
  pub replace_all-Replaced :
      (text : Bytes)
      → (out : Bytes) × (replace_all_ext_with_mode from_utf8_lossy test text replacement false
          ≡ some out)
        × Replaced test replacement false text out
  unfolding replace_all_ext_with_mode
  replace_all-Replaced text =
      let (out, eq, r) =
        replace_loop-Replaced test replacement false (length text) text (omega arith) in
      (out, rw (replace_all_ext_with_mode, eq) refl, r)
