-- ===== src/Pattern/Ext/Walk.antt =====
-- src/interpreter/pattern.rs: `ext_match` on texts of single bytes, step by step.
use rust_bash.Prelude.{
  ◌≡◌, ℕ, zero, suc, ◌<◌, List, [], ◌∷◌, Bool, true, false, Option, none, some, if◌then◌else◌, leb,
  ◌==◌, arith, length, Option-cases, inl, inr, lt→ltb,
}
use rust_bash.Prelude.Bytes.{Bytes}
use rust_bash.Pattern.Class.{bytes_eq, match_char_class, backslash}
use rust_bash.Pattern.Glob.{utf8_char_len, answer, glob_match}
use rust_bash.Pattern.Actions.{match_char_class-shorter}
use rust_bash.Pattern.Search.{IsAnswer, glob_match_inner-IsAnswer}
use rust_bash.Pattern.Ext.{
  Place, at, past, Matcher, Repeater, skip_stars, Next, go_on, stop, go_if, class_next, star_next,
  single_next, escaped_next, group_next, next_step, ext_walk, ext_match, repeat_deeper,
  extglob_match, has_extglob_syntax, max_extglob_depth, try_extglob_at, split_at_pipes, advanced,
}
use rust_bash.Pattern.Ext.Safe.{
  Ascii, Inside, any_suffix-IsAnswer, ext_match_repeat-IsAnswer, ext_match_group-IsAnswer,
}

-- What goes on has a shorter pattern and is inside the text, and what stops is an answer.
abbrev pub Sound : Bytes → Next → Type 0
Sound p (go_on p' t) = (length p' < length p) × Inside t
Sound p (stop v) = IsAnswer v

go_if-Sound :
    (b : Bool) (p q : Bytes) (t : Place) → length q < length p → Inside t → Sound p (go_if b q t)
go_if-Sound true p q t h a = (h, a)
go_if-Sound false p q t h a = tt

if-Sound :
    (b : Bool) (p : Bytes) (x y : Next) → Sound p x → Sound p y → Sound p (if b then x else y)
if-Sound true p x y h k = h
if-Sound false p x y h k = k

leb-positive : (n : ℕ) → leb 1 (suc n) ≡ true
leb-positive n = ground arith

advanced-Inside : (x : ℕ) (s : Bytes) → Ascii (x ∷ s) → Inside (advanced (utf8_char_len x) (x ∷ s))
unfolding utf8_char_len
advanced-Inside x s a = rw (lt→ltb x 128 a.0, leb-positive (length s)) a.1

class_next-Sound :
    (c x : ℕ) (s : Bytes) (nocase : Bool) (p : Bytes)
    → Ascii s
    → Sound (c ∷ p) (class_next x s nocase p (match_char_class p x nocase))
class_next-Sound c x s nocase p a = elim (Option-cases (match_char_class p x nocase)) [
  | inl e ↦ rw e (go_if-Sound (bytes_eq b'[' x nocase) (c ∷ p) p (at s) (omega arith) a)
  | inr (r, e) ↦ rw e (
      go_if-Sound r.0 (c ∷ p) r.1 (at s)
        (omega (arith, match_char_class-shorter p x nocase r.0 r.1 e)) a)
]

walk_on :
    (walk : Matcher) (fuel : ℕ) (p : Bytes) (n : Next)
    → length p < suc fuel
    → Sound p n
    → ((q : Bytes) (t : Place) → length q < fuel → Inside t → IsAnswer (walk q t))
    → IsAnswer (elim n [ go_on q t ↦ walk q t | stop v ↦ v ])
walk_on walk fuel p (go_on q t) h (shorter, inside) ok = ok q t (omega arith) inside
walk_on walk fuel p (stop v) h ok _ = ok

module _ (deeper : Matcher) (again : Repeater)
    (deeper_ok : (p : Bytes) (t : Place) → Inside t → IsAnswer (deeper p t))
    (again_ok : (n : ℕ) (p : Bytes) (alts : List Bytes) (s : Bytes)
      → Ascii s
      → IsAnswer (again n p alts s)) where
  star_next-Sound :
      (c : ℕ) (p : Bytes) (t : Place) → Inside t → Sound (c ∷ p) (star_next deeper p t)
  star_next-Sound c p past a = tt
  star_next-Sound c p (at s) a =
      any_suffix-IsAnswer (λ r. deeper (skip_stars p) (at r)) s
        (λ r. deeper_ok (skip_stars p) (at r)) a

  single_next-Sound :
      (nocase : Bool) (c : ℕ) (p : Bytes) (t : Place)
      → Inside t
      → Sound (c ∷ p) (single_next deeper nocase c p t)
  unfolding single_next
  single_next-Sound nocase c p past a = absurd a
  single_next-Sound nocase c p (at []) a =
      if-Sound (c == b'*') (c ∷ p) (star_next deeper p (at [])) (stop (answer false))
        (star_next-Sound c p (at []) a) tt
  single_next-Sound nocase c p (at (x ∷ s)) a =
      if-Sound (c == b'?') (c ∷ p) _ _ (omega arith, advanced-Inside x s a)
        (if-Sound (c == b'[') (c ∷ p) _ _ (class_next-Sound c x s nocase p a.1) (
          if-Sound (c == b'*') (c ∷ p) _ _ (star_next-Sound c p (at (x ∷ s)) a)
            (go_if-Sound (bytes_eq c x nocase) (c ∷ p) p (at s) (omega arith) a.1)))

  escaped_next-Sound :
      (nocase : Bool) (c d : ℕ) (p : Bytes) (t : Place)
      → Inside t
      → Sound (c ∷ d ∷ p) (escaped_next nocase d p t)
  escaped_next-Sound nocase c d p past a = tt
  escaped_next-Sound nocase c d p (at []) a = tt
  escaped_next-Sound nocase c d p (at (x ∷ s)) a =
      go_if-Sound (bytes_eq d x nocase) (c ∷ d ∷ p) p (at s) (omega arith) a.1

  group_next-Sound :
      (nocase : Bool) (c : ℕ) (p : Bytes) (t : Place) (g : Option (Bytes × Bytes))
      → Inside t
      → Sound (c ∷ p) (group_next deeper again nocase c p t g)
  group_next-Sound nocase c p t none a = single_next-Sound nocase c p t a
  group_next-Sound nocase c p t (some (inner, after)) a =
      ext_match_group-IsAnswer deeper again deeper_ok again_ok c after (split_at_pipes 0 inner) t a

  next_step-Sound :
      (nocase : Bool) (p : Bytes) (t : Place)
      → Inside t
      → Sound p (next_step deeper again nocase p t)
  unfolding next_step
  next_step-Sound nocase [] t a = tt
  next_step-Sound nocase (c ∷ []) t a = single_next-Sound nocase c [] t a
  next_step-Sound nocase (c ∷ d ∷ p) t a =
      if-Sound (c == backslash) (c ∷ d ∷ p) _ _ (escaped_next-Sound nocase c d p t a)
        (group_next-Sound nocase c (d ∷ p) t (try_extglob_at c (d ∷ p)) a)

  ext_walk-IsAnswer :
      (nocase : Bool) (fuel : ℕ) (p : Bytes) (t : Place)
      → length p < fuel
      → Inside t
      → IsAnswer (ext_walk deeper again nocase fuel p t)
  unfolding ext_walk
  ext_walk-IsAnswer nocase zero p t h a = absurd (omega arith)
  ext_walk-IsAnswer nocase (suc fuel) p t h a =
      walk_on (ext_walk deeper again nocase fuel) fuel p (next_step deeper again nocase p t) h
        (next_step-Sound nocase p t a) (ext_walk-IsAnswer nocase fuel)

-- The matcher and the repeater return with so much room.
abbrev BothAnswer : Bool → ℕ → Type 0
BothAnswer nocase room =
    ((p : Bytes) (t : Place) → Inside t → IsAnswer (ext_match nocase room p t))
    × ((n : ℕ) (p : Bytes) (alts : List Bytes) (s : Bytes)
        → Ascii s
        → IsAnswer (repeat_deeper nocase room n p alts s))

ext_match-BothAnswer : (nocase : Bool) (room : ℕ) → BothAnswer nocase room
unfolding ext_match repeat_deeper
ext_match-BothAnswer nocase zero = (λ p t a. tt, λ n p alts s a. tt)
ext_match-BothAnswer nocase (suc room) =
    let (matches, repeats) = ext_match-BothAnswer nocase room in
    (
      λ p t.
          ext_walk-IsAnswer (ext_match nocase room) (repeat_deeper nocase room) matches repeats
            nocase (suc (length p)) p t (omega arith),
      ext_match_repeat-IsAnswer (ext_match nocase room) (repeat_deeper nocase room) matches repeats,
    )

-- With or without extended syntax, and at every depth.
either-IsAnswer :
    (extended nocase : Bool) (room : ℕ) (p s : Bytes)
    → Ascii s
    → IsAnswer (if extended then ext_match nocase room p (at s) else glob_match p s)
unfolding glob_match
either-IsAnswer true nocase room p s a = (ext_match-BothAnswer nocase room).0 p (at s) a
either-IsAnswer false nocase room p s a =
    glob_match_inner-IsAnswer (record { nocase = false; path_mode = false; byte_mode = false }) p s

-- On a text of single bytes, `extglob_match` comes back with an answer, whatever the pattern is: it terminates
-- and reads nothing outside the text.
pub extglob_match-IsAnswer : (p s : Bytes) → Ascii s → IsAnswer (extglob_match p s)
unfolding extglob_match
extglob_match-IsAnswer p s a =
    either-IsAnswer (has_extglob_syntax false p) false (suc max_extglob_depth) p s a
