-- ===== src/Pattern/Replace/First.antt =====
-- src/interpreter/pattern.rs: `first_match_ext_with_mode`.
use rust_bash.Prelude.{
  ◌≡◌, refl, subst, sym, ==_iff, ℕ, zero, suc, ◌+◌, ◌≤◌, ◌<◌, Bool, true, false, Option, none, some,
  ◌==◌, arith, length, drop, Bool-cases, inl, inr,
}
use rust_bash.Prelude.Bytes.{Bytes}
use rust_bash.Pattern.Affix.{is_char_boundary}
use rust_bash.Pattern.Affix.Laws.{descending_sound, descending_last, descending-none}
use rust_bash.Pattern.Replace.{
  cut_passes, match_from, first_at, first_loop, first_match_ext_with_mode, map_end, or_else,
}

module _ (test : Bytes → Bool) (text : Bytes) where
  -- Nothing that starts at this place passes.
  abbrev pub NothingAt : ℕ → Type 0
  NothingAt j =
      is_char_boundary text j ≡ true
      → (n : ℕ) → n ≤ length (drop j text)
      → cut_passes test false (drop j text) n ≡ false

  -- A match: its start is at a character, it passes, and nothing longer from there does.
  abbrev pub LongestAt : ℕ → ℕ → Type 0
  LongestAt start n =
      (is_char_boundary text start ≡ true)
      × (n ≤ length (drop start text))
      × (cut_passes test false (drop start text) n ≡ true)
      × ((k : ℕ)
          → n < k
          → k ≤ length (drop start text)
          → cut_passes test false (drop start text) k ≡ false)

  later_or_here : (from j : ℕ) → NothingAt from → from ≤ j → (from < j → NothingAt j) → NothingAt j
  later_or_here from j here l later = elim (Bool-cases (from == j)) [
    | inl e ↦ subst NothingAt (((==_iff from j).0) e) here
    | inr e ↦ later (ground arith)
  ]

  abbrev FindsAt : ℕ → Option (ℕ × ℕ) → Type 0
  FindsAt j none = NothingAt j
  FindsAt j (some (start, end)) = (start ≡ j) × ((n : ℕ) × (end ≡ j + n) × LongestAt j n)

  -- The result of a search over `n` starts.
  abbrev pub FindsFrom : ℕ → ℕ → Option (ℕ × ℕ) → Type 0
  FindsFrom from n none = (j : ℕ) → from ≤ j → j < from + n → NothingAt j
  FindsFrom from n (some (start, end)) =
      (from ≤ start)
      × (start < from + n)
      × ((n : ℕ) × (end ≡ start + n) × LongestAt start n)
      × ((j : ℕ) → from ≤ j → j < start → NothingAt j)

  map_end-FindsAt :
      (j : ℕ)
      → is_char_boundary text j ≡ true
      → (o : Option ℕ) → match_from test false (drop j text) ≡ o
      → FindsAt j (map_end j o)
  unfolding match_from
  map_end-FindsAt j b none e = λ b' n l.
      descending-none (cut_passes test false (drop j text)) (suc (length (drop j text))) n e
        (omega arith)
  map_end-FindsAt j b (some n) e =
      let passes : ℕ → Bool = cut_passes test false (drop j text) in
      let (p, u) = descending_sound passes (suc (length (drop j text))) n e in
      (
        refl,
        (
          n,
          refl,
          (
            b,
            omega arith,
            p,
            λ k l u'. descending_last passes (suc (length (drop j text))) n k e l (omega arith),
          ),
        ),
      )

  first_at-FindsAt : (j : ℕ) → FindsAt j (first_at test false text j)
  unfolding first_at
  first_at-FindsAt j = elim (Bool-cases (is_char_boundary text j)) [
    | inl b ↦ rw b (map_end-FindsAt j b (match_from test false (drop j text)) refl)
    | inr b ↦ rw b (λ b'. absurd (ground arith))
  ]

  or_else-FindsFrom :
      (from n : ℕ) (here later : Option (ℕ × ℕ))
      → FindsAt from here
      → FindsFrom (suc from) n later
      → FindsFrom from (suc n) (or_else here later)
  or_else-FindsFrom from n none none h k =
      λ j l u. later_or_here from j h l (λ l'. k j l' (omega arith))
  or_else-FindsFrom from n none (some (start, end)) h (l, u, found, before) = (
    omega arith,
    omega arith,
    found,
    λ j l' u'. later_or_here from j h l' (λ l''. before j l'' u'),
  )
  or_else-FindsFrom from n (some (start, end)) later (same, found) k =
      subst (λ j. FindsFrom from (suc n) (some (j, end))) (sym same)
        (omega arith, omega arith, found, λ j l u. absurd (omega arith))

  first_loop-FindsFrom : (n from : ℕ) → FindsFrom from n (first_loop test false text n from)
  unfolding first_loop
  first_loop-FindsFrom zero from = λ j l u. absurd (omega arith)
  first_loop-FindsFrom (suc n) from =
      or_else-FindsFrom from n (first_at test false text from)
        (first_loop test false text n (suc from)) (first_at-FindsAt from)
        (first_loop-FindsFrom n (suc from))

  -- Outside byte mode, `first_match_ext_with_mode` finds the earliest match and, where it starts, the longest; or
  -- it finds none, and nothing in the text passes.
  pub first_match-FindsFrom :
      FindsFrom 0 (suc (length text)) (first_match_ext_with_mode test text false)
  unfolding first_match_ext_with_mode
  first_match-FindsFrom = first_loop-FindsFrom (suc (length text)) 0
