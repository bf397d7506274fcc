-- ===== src/Pattern/Decides.antt =====
-- src/interpreter/pattern.rs: `glob_match_inner` and the relation of `Matches`.
use rust_bash.Prelude.{
  ◌≡◌, refl, ℕ, zero, suc, [], ◌∷◌, true, false, ◌↔◌, arith, none, some, All, Bool-cases, inl, inr,
}
use rust_bash.Prelude.Bytes.{Bytes}
use rust_bash.Pattern.Glob.{
  Mode, Action, advance, star, mismatch, action, char_len, only_stars, Star, Verdict, answer, panic,
  out_of_fuel, Round, round, backtrack, glob_loop, glob_match_inner,
}
use rust_bash.Pattern.Actions.{SingleByte, action-Advances, action-star_inv}
use rust_bash.Pattern.Matches.{
  asterisk, Matches, finished, one, leave, take, one_inv, no_match, star_at_end, must_take,
  two_stars, shift,
}
use rust_bash.Pattern.Search.{IsAnswer, glob_match_inner-IsAnswer}

-- The run ended with the right answer to the question `G`, or did not end with an answer.
abbrev Right : Type 0 → Verdict → Type 0
Right G (answer true) = G
Right G (answer false) = ¬ G
Right G panic = Unit
Right G out_of_fuel = Unit

only_stars_sound : (m : Mode) (p : Bytes) → only_stars p ≡ true → Matches m p []
unfolding only_stars
only_stars_sound m [] h = finished
only_stars_sound m (c ∷ p) h = leave (ground arith) (only_stars_sound m p (ground arith))

only_stars_complete : (m : Mode) (p : Bytes) → Matches m p [] → only_stars p ≡ true
unfolding only_stars
only_stars_complete m _ finished = refl
only_stars_complete m _ (leave {a} {p} h d) = ground (arith, only_stars_complete m p d)

module _ (m : Mode) (any_path : m.path_mode ≡ false) (G : Type 0) where
  -- What the saved star position means.
  abbrev Meaning : Bytes → Bytes → Star → Type 0
  Meaning p s none = G → Matches m p s
  Meaning p s (some (q, t)) =
      (G ↔ Matches m (asterisk ∷ q) t) × (Matches m q t → Matches m p s) × All (SingleByte m) t

  record Inv (p s : Bytes) (back : Star) : Type 0 where
    now : Matches m p s → G
    later : G → Matches m (asterisk ∷ p) s
    saved : Meaning p s back
    single : All (SingleByte m) s

  -- The loop goes on right from wherever the invariant holds.
  abbrev GoesOn : Round → Type 0
  GoesOn next = (p s : Bytes) (b : Star) → Inv p s b → Right G (next p s b)

  Inv-star :
      (p s : Bytes) → G ↔ Matches m (asterisk ∷ p) s → All (SingleByte m) s → Inv p s (some (p, s))
  Inv-star p s e single = record {
    now = λ d. e.1 (leave refl d);
    later = e.0;
    saved = (e, λ d. d, single);
    single = single;
  }

  Meaning-one :
      (p q s : Bytes) (c : ℕ) (back : Star)
      → action m p c ≡ advance q 1
      → Meaning p (c ∷ s) back
      → Meaning q s back
  Meaning-one p q s c none e h = λ g. one_inv (h g) e
  Meaning-one p q s c (some (r, t)) e (whole, down, single) =
      (whole, λ d. one_inv (down d) e, single)

  backtrack-Right :
      (p s : Bytes) (c : ℕ) (back : Star) (next : Round)
      → GoesOn next
      → Inv p (c ∷ s) back
      → action m p c ≡ mismatch
      → Right G (backtrack m back next)
  unfolding backtrack char_len
  backtrack-Right p s c none next go i e = λ g. no_match e (i.saved g)
  backtrack-Right p s c (some (q, [])) next go i e = tt
  backtrack-Right p s c (some (q, x ∷ t)) next go i e =
      let (whole, down, (width, single)) = i.saved in
      rw any_path (
        rw width (
          go q t (some (q, t)) (
            Inv-star q t
              (λ g. must_take (whole.0 g) (λ d. no_match e (down d)), λ d. whole.1 (take refl d))
              single)))

  round-Right :
      (p s : Bytes) (c : ℕ) (back : Star) (next : Round) (a : Action)
      → GoesOn next
      → Inv p (c ∷ s) back
      → action m p c ≡ a
      → Right G (round m a c s back next)
  unfolding round
  round-Right p s c back next (star q) go i e =
      let here = action-star_inv m p c q e in
      go q (c ∷ s) (some (q, c ∷ s)) (
        Inv-star q (c ∷ s) (λ g. two_stars (rw here at (i.later g)), λ d. i.now (rw here d))
          i.single)
  round-Right p s c back next mismatch go i e = backtrack-Right p s c back next go i e
  round-Right p s c back next (advance q n) go i e =
      let width : n ≡ 1 = rw e at (action-Advances m p c i.single.0) in
      let step : action m p c ≡ advance q 1 = rw width at e in
      rw width (
        go q s back (record {
          now = λ d. i.now (one step d);
          later = λ g. shift p s q c step (i.later g);
          saved = Meaning-one p q s c back step i.saved;
          single = i.single.1;
        }))

  glob_loop-Right : (f : ℕ) → GoesOn (glob_loop m f)
  unfolding glob_loop
  glob_loop-Right zero p s back i = tt
  glob_loop-Right (suc f) p [] back i = elim (Bool-cases (only_stars p)) [
    | inl e ↦ rw e (i.now (only_stars_sound m p e))
    | inr e ↦ rw e (λ g. cc (only_stars_complete m p (star_at_end (i.later g)), e))
  ]
  glob_loop-Right (suc f) p (c ∷ s) back i =
      round-Right p s c back (glob_loop m f) (action m p c) (glob_loop-Right f) i refl

start-Inv :
    (m : Mode) (any_path : m.path_mode ≡ false) (p s : Bytes)
    → All (SingleByte m) s
    → Inv m any_path (Matches m p s) p s none
start-Inv m any_path p s single = record {
  now = λ d. d;
  later = λ d. leave refl d;
  saved = λ d. d;
  single = single;
}

verdict-decides : (G : Type 0) (v : Verdict) → IsAnswer v → Right G v → (v ≡ answer true) ↔ G
verdict-decides G (answer true) _ g = (λ _. g, λ _. refl)
verdict-decides G (answer false) _ n = (λ e. ground arith, λ g. absurd (n g))
verdict-decides G panic a _ = absurd a
verdict-decides G out_of_fuel a _ = absurd a

-- Where a character is one byte and `*` may take any byte (not in path mode), `glob_match_inner` answers
-- true exactly where the text matches the pattern by the relation `Matches`, which has no search order in
-- it: going back to the last star only is enough.
pub glob_match_inner-Matches :
    (m : Mode) (p s : Bytes)
    → m.path_mode ≡ false
    → All (SingleByte m) s
    → (glob_match_inner m p s ≡ answer true) ↔ Matches m p s
unfolding glob_match_inner
glob_match_inner-Matches m p s any_path single =
    verdict-decides (Matches m p s) (glob_match_inner m p s) (glob_match_inner-IsAnswer m p s)
      (glob_loop-Right m any_path (Matches m p s) _ p s none (start-Inv m any_path p s single))
