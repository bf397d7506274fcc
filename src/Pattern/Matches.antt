-- ===== src/Pattern/Matches.antt =====
-- src/interpreter/pattern.rs: what it means for a text to match a pattern, with no search order in it.
use rust_bash.Prelude.{◌≡◌, refl, ℕ, [], ◌∷◌}
use rust_bash.Prelude.Bytes.{Bytes}
use rust_bash.Pattern.Glob.{Mode, advance, star, mismatch, action}
use rust_bash.Pattern.Actions.{action_star}
use rust_bash.Pattern.Shape.{action-next}

abbrev pub asterisk : ℕ
asterisk = b'*'

module _ (m : Mode) where
  pub data Matches : Bytes → Bytes → Type 0 where
    finished : Matches [] []
    one : {c : ℕ} {p p' s : Bytes} → action m p c ≡ advance p' 1 → Matches p' s → Matches p (c ∷ s)
    leave : {a : ℕ} {p s : Bytes} → a ≡ asterisk → Matches p s → Matches (a ∷ p) s
    take : {a c : ℕ} {p s : Bytes} → a ≡ asterisk → Matches (a ∷ p) s → Matches (a ∷ p) (c ∷ s)

star_action : (m : Mode) (a : ℕ) (p : Bytes) (c : ℕ) → a ≡ asterisk → action m (a ∷ p) c ≡ star p
star_action m a p c h = rw h (action_star m p c)

nil_action : (m : Mode) (c : ℕ) → action m [] c ≡ mismatch
unfolding action
nil_action m c = refl

module _ {m : Mode} where
  pub one_inv :
      {p s : Bytes} {c : ℕ} {q : Bytes} {n : ℕ}
      → Matches m p (c ∷ s)
      → action m p c ≡ advance q n
      → Matches m q s
  one_inv {p} {s} {c} {q} {n} (one {p' = p'} h d) e = rw (action-next m p c c q p' n 1 e h) d
  one_inv {c} (leave {a} {p} h d) e = absurd (cc (star_action m a p c h, e))
  one_inv {c} (take {a} {p} h d) e = absurd (cc (star_action m a p c h, e))

  pub no_match : {p s : Bytes} {c : ℕ} → action m p c ≡ mismatch → Matches m p (c ∷ s) → ⊥
  no_match e (one h d) = cc
  no_match {c} e (leave {a} {p} h d) = cc (star_action m a p c h, e)
  no_match {c} e (take {a} {p} h d) = cc (star_action m a p c h, e)

  pub star_at_end : {p : Bytes} → Matches m (asterisk ∷ p) [] → Matches m p []
  star_at_end (leave h d) = d

  pub must_take :
      {p s : Bytes} {c : ℕ}
      → Matches m (asterisk ∷ p) (c ∷ s)
      → ¬ Matches m p (c ∷ s)
      → Matches m (asterisk ∷ p) s
  must_take {p} {c} (one h d) n = absurd (cc (star_action m asterisk p c refl, h))
  must_take (leave h d) n = absurd (n d)
  must_take (take h d) n = d

  -- A star before a star adds nothing.
  pub two_stars : {p s : Bytes} → Matches m (asterisk ∷ asterisk ∷ p) s → Matches m (asterisk ∷ p) s
  two_stars {p} (one {c} h d) = absurd (cc (star_action m asterisk (asterisk ∷ p) c refl, h))
  two_stars (leave h d) = d
  two_stars (take h d) = take refl (two_stars d)

  no_end : (d : ℕ) {p q : Bytes} {n : ℕ} → Matches m p [] → action m p d ≡ advance q n → ⊥
  no_end d finished e = cc (nil_action m d, e)
  no_end d (leave {a} {p} h k) e = cc (star_action m a p d h, e)

  -- Why going back to the last star is enough: where the head of `p` takes a byte, what a star and `p`
  -- match goes on one byte later behind that head.
  pub shift :
      (p s q : Bytes) (d : ℕ) {c n : ℕ}
      → action m p d ≡ advance q n
      → Matches m (asterisk ∷ p) (c ∷ s)
      → Matches m (asterisk ∷ q) s
  shift p s q d {c} e (one h k) = absurd (cc (star_action m asterisk p c refl, h))
  shift p s q d {c} {n} e (leave _ (one {p' = p'} h k)) =
      leave refl (rw (action-next m p d c q p' n 1 e h) k)
  shift _ s q b e (leave _ (leave {a} {p} h k)) = absurd (cc (star_action m a p b h, e))
  shift _ s q b e (leave _ (take {a} {p} h k)) = absurd (cc (star_action m a p b h, e))
  shift p [] q d e (take _ k) = absurd (no_end d (star_at_end k) e)
  shift p (x ∷ s) q d e (take _ k) = take refl (shift p s q d e k)
