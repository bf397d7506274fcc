-- ===== src/Pattern/Shape.antt =====
-- src/interpreter/pattern.rs: how a pattern goes on behind its head.
use rust_bash.Prelude.{
  ◌≡◌, refl, sym, ℕ, zero, suc, [], ◌∷◌, Bool, false, ◌||◌, Option, none, some, arith, ◌∙◌,
}
use rust_bash.Prelude.Bytes.{Bytes}
use rust_bash.Pattern.Class.{
  bytes_eq, match_char_class, members, member, plain_member, class_body, is_negated, negate,
}
use rust_bash.Pattern.Glob.{Mode, advance, class_action, action}

abbrev rest_of : Option (Bool × Bytes) → Option Bytes
rest_of none = none
rest_of (some (r, rest)) = some rest

member-skip : (a b : ℕ) (nocase : Bool) (p : Bytes) → (member a nocase p).1 ≡ (member b nocase p).1
unfolding member plain_member
member-skip a b nocase [] = ground arith
member-skip a b nocase (c ∷ []) = ground arith
member-skip a b nocase (c ∷ d ∷ []) = ground arith
member-skip a b nocase (c ∷ d ∷ e ∷ p) = ground arith

members-rest :
    (a b : ℕ) (nocase : Bool) (skip : ℕ) (r s : Bool) (p : Bytes)
    → rest_of (members a nocase skip r p) ≡ rest_of (members b nocase skip s p)
unfolding members
members-rest a b nocase skip r s [] = refl
members-rest a b nocase (suc skip) r s (c ∷ p) = members-rest a b nocase skip r s p
members-rest a b nocase zero r s (c ∷ p) =
    let m = member a nocase (c ∷ p) in
    let n = member b nocase (c ∷ p) in
    ground
      (arith, member-skip a b nocase (c ∷ p), members-rest a b nocase m.1 (r || m.0) (s || n.0) p)

class_body-rest :
    (a b : ℕ) (nocase : Bool) (p : Bytes)
    → rest_of (class_body a nocase p) ≡ rest_of (class_body b nocase p)
unfolding class_body
class_body-rest a b nocase [] = refl
class_body-rest a b nocase (c ∷ p) = ground (
  arith,
  members-rest a b nocase 0 (bytes_eq a b']' nocase) (bytes_eq b b']' nocase) p,
  members-rest a b nocase 0 false false (c ∷ p),
)

negate-rest : (n : Bool) (o : Option (Bool × Bytes)) → rest_of (negate n o) ≡ rest_of o
negate-rest n none = refl
negate-rest n (some (r, rest)) = refl

match_char_class-rest :
    (p : Bytes) (a b : ℕ) (nocase : Bool)
    → rest_of (match_char_class p a nocase) ≡ rest_of (match_char_class p b nocase)
unfolding match_char_class
match_char_class-rest p a b nocase =
    negate-rest (is_negated p) _
    ∙ (class_body-rest a b nocase _ ∙ sym (negate-rest (is_negated p) _))

class_action-next :
    (c a b : ℕ) (nocase : Bool) (p : Bytes) (o u : Option (Bool × Bytes)) (q q' : Bytes) (i j : ℕ)
    → rest_of o ≡ rest_of u
    → class_action c a nocase p o ≡ advance q i
    → class_action c b nocase p u ≡ advance q' j
    → q ≡ q'
class_action-next c a b nocase p none none q q' i j e h k = ground arith
class_action-next c a b nocase p none (some _) q q' i j e h k = ground arith
class_action-next c a b nocase p (some _) none q q' i j e h k = ground arith
class_action-next c a b nocase p (some (r, x)) (some (s, y)) q q' i j e h k = ground arith

-- Two bytes that the head of a pattern takes leave the same pattern.
pub action-next :
    (m : Mode) (p : Bytes) (a b : ℕ) (q q' : Bytes) (i j : ℕ)
    → action m p a ≡ advance q i
    → action m p b ≡ advance q' j
    → q ≡ q'
unfolding action
action-next m [] a b q q' i j h k = ground arith
action-next m (c ∷ []) a b q q' i j h k = ground (
  arith,
  class_action-next c a b m.nocase [] (match_char_class [] a m.nocase)
      (match_char_class [] b m.nocase) q q' i j,
  match_char_class-rest [] a b m.nocase,
)
action-next m (c ∷ d ∷ p) a b q q' i j h k = ground (
  arith,
  class_action-next c a b m.nocase (d ∷ p) (match_char_class (d ∷ p) a m.nocase)
      (match_char_class (d ∷ p) b m.nocase) q q' i j,
  match_char_class-rest (d ∷ p) a b m.nocase,
)
