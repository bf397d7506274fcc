-- ===== src/Pattern/Actions.antt =====
-- src/interpreter/pattern.rs: what one round of `glob_match_inner` consumes.
use rust_bash.Prelude.{
  ◌≡◌, ◌≢◌, refl, ℕ, zero, suc, ◌≤◌, ◌<◌, [], ◌∷◌, Bool, false, ◌||◌, Option, none, some,
  if◌then◌else◌, length, arith, Bool-cases, Option-cases, inl, inr,
}
use rust_bash.Prelude.Bytes.{Bytes}
use rust_bash.Pattern.Class.{
  bytes_eq, match_char_class, members, member, class_body, is_negated, negate, behind_first,
}
use rust_bash.Pattern.Glob.{Mode, char_len, Action, advance, star, mismatch, class_action, action}

members-shorter :
    (ch : ℕ) (nocase : Bool) (skip : ℕ) (matched : Bool) (p : Bytes) (r : Bool) (rest : Bytes)
    → members ch nocase skip matched p ≡ some (r, rest)
    → length rest < length p
unfolding members
members-shorter ch nocase skip matched [] r rest h = ground arith
members-shorter ch nocase (suc skip) matched (c ∷ p) r rest h =
    omega (arith, members-shorter ch nocase skip matched p r rest h)
members-shorter ch nocase zero matched (c ∷ p) r rest h =
    let m = member ch nocase (c ∷ p) in
    ground (arith, members-shorter ch nocase m.1 (matched || m.0) p r rest)

class_body-shorter :
    (ch : ℕ) (nocase : Bool) (p : Bytes) (r : Bool) (rest : Bytes)
    → class_body ch nocase p ≡ some (r, rest)
    → length rest < length p
unfolding class_body
class_body-shorter ch nocase [] r rest h = ground arith
class_body-shorter ch nocase (c ∷ p) r rest h = ground (
  arith,
  members-shorter ch nocase 0 (bytes_eq ch b']' nocase) p r rest,
  members-shorter ch nocase 0 false (c ∷ p) r rest,
)

length-behind_first : (p : Bytes) → length (behind_first p) ≤ length p
length-behind_first [] = omega arith
length-behind_first (c ∷ p) = omega arith

negate_inv :
    (n : Bool) (o : Option (Bool × Bytes)) (r : Bool) (rest : Bytes)
    → negate n o ≡ some (r, rest)
    → (r' : Bool) × (o ≡ some (r', rest))
negate_inv n none r rest h = ground arith
negate_inv n (some (m, p)) r rest h = (m, ground arith)

-- A bracket expression ends inside the pattern.
pub match_char_class-shorter :
    (p : Bytes) (ch : ℕ) (nocase : Bool) (r : Bool) (rest : Bytes)
    → match_char_class p ch nocase ≡ some (r, rest)
    → length rest < length p
unfolding match_char_class
match_char_class-shorter p ch nocase r rest h =
    let body = if is_negated p then behind_first p else p in
    let (r', inside) = negate_inv (is_negated p) (class_body ch nocase body) r rest h in
    let shorter = class_body-shorter ch nocase body r' rest inside in
    elim (Bool-cases (is_negated p)) [
      | inl e ↦ omega (arith, length-behind_first p, rw e at shorter)
      | inr e ↦ rw e at shorter
    ]

-- An action that goes on has shortened the pattern.
abbrev pub Shortens : Bytes → Action → Type 0
Shortens p (advance p' n) = length p' < length p
Shortens p (star p') = length p' < length p
Shortens p mismatch = Unit

class_action-Shortens :
    (c b : ℕ) (nocase : Bool) (p : Bytes)
    → Shortens (c ∷ p) (class_action c b nocase p (match_char_class p b nocase))
class_action-Shortens c b nocase p = elim (Option-cases (match_char_class p b nocase)) [
  | inl e ↦ rw e (ground arith)
  | inr (r, e) ↦ rw e (ground (arith, match_char_class-shorter p b nocase r.0 r.1 e))
]

pub action-Shortens : (m : Mode) (p : Bytes) (b : ℕ) → Shortens p (action m p b)
unfolding action
action-Shortens m [] b = tt
action-Shortens m (c ∷ []) b = ground (arith, class_action-Shortens c b m.nocase [])
action-Shortens m (c ∷ d ∷ p) b = ground (arith, class_action-Shortens c b m.nocase (d ∷ p))

pub char_len-pos : (m : Mode) (b : ℕ) → 1 ≤ char_len m b
unfolding char_len
char_len-pos m b = ground arith

-- A mode and a byte for which a character is one byte.
abbrev pub SingleByte : Mode → ℕ → Type 0
SingleByte m b = char_len m b ≡ 1

abbrev pub Advances : ℕ → Action → Type 0
Advances k (advance p' n) = n ≡ k
Advances k (star _) = Unit
Advances k mismatch = Unit

class_action-Advances :
    (c b : ℕ) (nocase : Bool) (p : Bytes) (o : Option (Bool × Bytes))
    → Advances 1 (class_action c b nocase p o)
class_action-Advances c b nocase p none = ground arith
class_action-Advances c b nocase p (some (r, rest)) = ground arith

pub action-Advances : (m : Mode) (p : Bytes) (b : ℕ) → SingleByte m b → Advances 1 (action m p b)
unfolding action
action-Advances m [] b h = tt
action-Advances m (c ∷ []) b h =
    ground (arith, class_action-Advances c b m.nocase [] (match_char_class [] b m.nocase))
action-Advances m (c ∷ d ∷ p) b h =
    ground (arith, class_action-Advances c b m.nocase (d ∷ p) (match_char_class (d ∷ p) b m.nocase))

class_action-no_star :
    (c b : ℕ) (nocase : Bool) (p : Bytes) (o : Option (Bool × Bytes)) (p' : Bytes)
    → class_action c b nocase p o ≢ star p'
class_action-no_star c b nocase p none p' = ground arith
class_action-no_star c b nocase p (some (r, rest)) p' = ground arith

pub action-star_inv :
    (m : Mode) (p : Bytes) (b : ℕ) (p' : Bytes) → action m p b ≡ star p' → p ≡ b'*' ∷ p'
unfolding action
action-star_inv m [] b p' h = ground arith
action-star_inv m (c ∷ []) b p' h =
    ground (arith, class_action-no_star c b m.nocase [] (match_char_class [] b m.nocase) p')
action-star_inv m (c ∷ d ∷ p) b p' h =
    ground
      (arith, class_action-no_star c b m.nocase (d ∷ p) (match_char_class (d ∷ p) b m.nocase) p')

pub action_star : (m : Mode) (p : Bytes) (b : ℕ) → action m (b'*' ∷ p) b ≡ star p
unfolding action
action_star m [] b = refl
action_star m (d ∷ p) b = refl
