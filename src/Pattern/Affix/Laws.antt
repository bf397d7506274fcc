-- ===== src/Pattern/Affix/Laws.antt =====
-- src/interpreter/pattern.rs: the two search loops, and the longest suffix and prefix.
use rust_bash.Prelude.{
  ◌≡◌, none, ℕ, zero, suc, ◌+◌, ◌≤◌, ◌<◌, Bool, true, false, some, ◌==◌, arith, length, drop, take,
  Bool-cases, inl, inr, and-eq-true,
}
use rust_bash.Prelude.Bytes.{Bytes}
use rust_bash.Pattern.Affix.{
  ascending, descending, is_char_boundary, suffix_passes, prefix_passes,
  longest_suffix_match_ext_with_mode, longest_prefix_match_ext_with_mode,
}

module _ (passes : ℕ → Bool) where
  ascending_sound :
      (n from i : ℕ)
      → ascending passes n from ≡ some i
      → (passes i ≡ true) × (from ≤ i) × (i < from + n)
  unfolding ascending
  ascending_sound zero from i h = cc
  ascending_sound (suc n) from i h = elim (Bool-cases (passes from)) [
    | inl e ↦ ground arith
    | inr e ↦
        let (p, l, u) = ascending_sound n (suc from) i (ground arith) in
        (p, omega arith, omega arith)
  ]

  ascending_first :
      (n from i j : ℕ) → ascending passes n from ≡ some i → from ≤ j → j < i → passes j ≡ false
  unfolding ascending
  ascending_first zero from i j h l u = cc
  ascending_first (suc n) from i j h l u = elim (Bool-cases (passes from)) [
    | inl e ↦ absurd (let same : from ≡ i = ground arith in omega arith)
    | inr e ↦ elim (Bool-cases (j == from)) [
      | inl q ↦ ground arith
      | inr q ↦ ascending_first n (suc from) i j (ground arith) (ground arith) u
    ]
  ]

  pub descending_sound : (n i : ℕ) → descending passes n ≡ some i → (passes i ≡ true) × (i < n)
  unfolding descending
  descending_sound zero i h = cc
  descending_sound (suc n) i h = elim (Bool-cases (passes n)) [
    | inl e ↦ ground arith
    | inr e ↦ let (p, u) = descending_sound n i (ground arith) in (p, omega arith)
  ]

  pub descending_last :
      (n i j : ℕ) → descending passes n ≡ some i → i < j → j < n → passes j ≡ false
  unfolding descending
  descending_last zero i j h l u = cc
  descending_last (suc n) i j h l u = elim (Bool-cases (passes n)) [
    | inl e ↦ absurd (let same : n ≡ i = ground arith in omega arith)
    | inr e ↦ elim (Bool-cases (j == n)) [
      | inl q ↦ ground arith
      | inr q ↦ descending_last n i j (ground arith) l (ground arith)
    ]
  ]

  pub descending-none : (n j : ℕ) → descending passes n ≡ none → j < n → passes j ≡ false
  unfolding descending
  descending-none zero j h l = absurd (omega arith)
  descending-none (suc n) j h l = elim (Bool-cases (passes n)) [
    | inl e ↦ ground arith
    | inr e ↦ elim (Bool-cases (j == n)) [
      | inl q ↦ ground arith
      | inr q ↦ descending-none n j (ground arith) (ground arith)
    ]
  ]

module _ (test : Bytes → Bool) (text : Bytes) where
  -- What the search for the longest suffix returns is an index in bounds, at a character, whose suffix passes
  -- the test. Not in byte mode.
  pub longest_suffix_match_found :
      (i : ℕ)
      → longest_suffix_match_ext_with_mode test text false ≡ some i
      → (i ≤ length text) × (is_char_boundary text i ≡ true) × (test (drop i text) ≡ true)
  unfolding longest_suffix_match_ext_with_mode suffix_passes
  longest_suffix_match_found i h =
      let (p, l, u) = ascending_sound (suffix_passes test text) (suc (length text)) 0 i h in
      let (b, t) = and-eq-true (is_char_boundary text i) _ p in (omega arith, b, t)

  -- No suffix that starts at an earlier character than the one returned passes the test. Not in byte mode.
  pub longest_suffix_match_longest :
      (i j : ℕ)
      → longest_suffix_match_ext_with_mode test text false ≡ some i
      → j < i
      → is_char_boundary text j ≡ true
      → test (drop j text) ≡ false
  unfolding longest_suffix_match_ext_with_mode suffix_passes
  longest_suffix_match_longest i j h l b =
      let e =
        ascending_first (suffix_passes test text) (suc (length text)) 0 i j h (omega arith) l in
      rw b at e

  -- What the search for the longest prefix returns is a length in bounds, at a character, whose prefix passes
  -- the test. Not in byte mode.
  pub longest_prefix_match_found :
      (i : ℕ)
      → longest_prefix_match_ext_with_mode test text false ≡ some i
      → (i ≤ length text) × (is_char_boundary text i ≡ true) × (test (take i text) ≡ true)
  unfolding longest_prefix_match_ext_with_mode prefix_passes
  longest_prefix_match_found i h =
      let (p, u) = descending_sound (prefix_passes test text) (suc (length text)) i h in
      let (b, t) = and-eq-true (is_char_boundary text i) _ p in (omega arith, b, t)

  -- No prefix that is longer than the one returned and ends at a character passes the test. Not in byte mode.
  pub longest_prefix_match_longest :
      (i j : ℕ)
      → longest_prefix_match_ext_with_mode test text false ≡ some i
      → i < j
      → j ≤ length text
      → is_char_boundary text j ≡ true
      → test (take j text) ≡ false
  unfolding longest_prefix_match_ext_with_mode prefix_passes
  longest_prefix_match_longest i j h l u b =
      let e = descending_last (prefix_passes test text) (suc (length text)) i j h l (omega arith) in
      rw b at e
