-- ===== src/Pattern/Search.antt =====
-- src/interpreter/pattern.rs: the rounds and the bounds of the loop of `glob_match_inner`.
use rust_bash.Prelude.{
  ℕ, zero, suc, ◌+◌, ◌*◌, ◌≤◌, ◌<◌, [], ◌∷◌, ◌==◌, ◌&&◌, arith, none, some, length, drop,
  Bool-cases, inl, inr,
}
use rust_bash.Prelude.Bytes.{Bytes}
use rust_bash.Pattern.Glob.{
  Mode, Action, advance, star, mismatch, action, char_len, Star, Verdict, answer, panic,
  out_of_fuel, Round, round, backtrack, glob_loop, glob_fuel, glob_match_inner,
}
use rust_bash.Pattern.Actions.{Shortens, action-Shortens, char_len-pos}

length-drop-le : (n : ℕ) (s : Bytes) → length (drop n s) ≤ length s
length-drop-le zero s = omega arith
length-drop-le (suc n) [] = omega arith
length-drop-le (suc n) (c ∷ s) = omega (arith, length-drop-le n s)

length-drop-lt : (n : ℕ) (c : ℕ) (s : Bytes) → 1 ≤ n → length (drop n (c ∷ s)) ≤ length s
length-drop-lt zero c s h = absurd (omega arith)
length-drop-lt (suc n) c s h = length-drop-le n s

-- The run ended with an answer.
abbrev pub IsAnswer : Verdict → Type 0
IsAnswer (answer b) = Unit
IsAnswer panic = ⊥
IsAnswer out_of_fuel = ⊥

module _ (m : Mode) (k : ℕ) where
  -- `j` bounds the text that the star still has, and every pattern in play is shorter than `k`.
  abbrev Bounded : ℕ → Bytes → Star → Type 0
  Bounded j s none = length s ≤ j
  Bounded j s (some (p, t)) = (length s ≤ length t) × (length t ≤ j) × (length p < k)

  backtrack-IsAnswer :
      (f j : ℕ) (p : Bytes) (c : ℕ) (s : Bytes) (back : Star) (next : Round)
      → ((i : ℕ) (p' s' : Bytes) (b : Star)
          → Bounded i s' b
          → length p' < k
          → i * k + length p' < f
          → IsAnswer (next p' s' b))
      → Bounded j (c ∷ s) back
      → j * k + length p < suc f
      → IsAnswer (backtrack m back next)
  unfolding backtrack
  backtrack-IsAnswer f j p c s none next ih b fuel = tt
  backtrack-IsAnswer f j p c s (some (q, [])) next ih b fuel = omega arith
  backtrack-IsAnswer f zero p c s (some (q, x ∷ t)) next ih b fuel = absurd (omega arith)
  backtrack-IsAnswer f (suc j) p c s (some (q, x ∷ t)) next ih b fuel =
      elim (Bool-cases (m.path_mode && x == b'/')) [
        | inl e ↦ rw e tt
        | inr e ↦ rw e (
            let rest = drop (char_len m x) (x ∷ t) in
            let shorter = length-drop-lt (char_len m x) x t (char_len-pos m x) in
            ih j q rest (some (q, rest)) (omega arith, omega arith, b.2) b.2 (omega arith))
      ]

  Bounded-shrink :
      (j : ℕ) (s t : Bytes) (o : Star) → length t ≤ length s → Bounded j s o → Bounded j t o
  Bounded-shrink j s t none h d = omega arith
  Bounded-shrink j s t (some (q, u)) h d = (omega arith, d.1, d.2)

  Bounded-text : (j : ℕ) (s : Bytes) (o : Star) → Bounded j s o → length s ≤ j
  Bounded-text j s none d = d
  Bounded-text j s (some (q, u)) d = omega arith

  round-IsAnswer :
      (f j : ℕ) (a : Action) (p : Bytes) (c : ℕ) (s : Bytes) (back : Star) (next : Round)
      → ((i : ℕ) (p' s' : Bytes) (b : Star)
          → Bounded i s' b
          → length p' < k
          → i * k + length p' < f
          → IsAnswer (next p' s' b))
      → Shortens p a
      → Bounded j (c ∷ s) back
      → length p < k
      → j * k + length p < suc f
      → IsAnswer (round m a c s back next)
  unfolding round
  round-IsAnswer f j (advance p' n) p c s back next ih shorter b small fuel =
      ih j p' (drop n (c ∷ s)) back
        (Bounded-shrink j (c ∷ s) (drop n (c ∷ s)) back (length-drop-le n (c ∷ s)) b) (omega arith)
        (omega arith)
  round-IsAnswer f j (star p') p c s back next ih shorter b small fuel =
      ih j p' (c ∷ s) (some (p', c ∷ s)) (omega arith, Bounded-text j (c ∷ s) back b, omega arith)
        (omega arith) (omega arith)
  round-IsAnswer f j mismatch p c s back next ih shorter b small fuel =
      backtrack-IsAnswer f j p c s back next ih b fuel

  glob_loop-IsAnswer :
      (f j : ℕ) (p s : Bytes) (back : Star)
      → Bounded j s back
      → length p < k
      → j * k + length p < f
      → IsAnswer (glob_loop m f p s back)
  unfolding glob_loop
  glob_loop-IsAnswer zero j p s back b small fuel = absurd (omega arith)
  glob_loop-IsAnswer (suc f) j p [] back b small fuel = tt
  glob_loop-IsAnswer (suc f) j p (c ∷ s) back b small fuel =
      round-IsAnswer f j (action m p c) p c s back (glob_loop m f) (glob_loop-IsAnswer f)
        (action-Shortens m p c) b small fuel

-- In every mode, on every pattern and every text, the matcher returns: the loop ends within
-- `(|text| + 1) * (|pattern| + 1)` rounds, and going back to a star never reads past the text.
pub glob_match_inner-IsAnswer : (m : Mode) (p s : Bytes) → IsAnswer (glob_match_inner m p s)
unfolding glob_match_inner
glob_match_inner-IsAnswer m p s =
    glob_loop-IsAnswer m (length p + 1) (glob_fuel p s) (length s) p s none (omega arith)
      (omega arith) (grind arith)
