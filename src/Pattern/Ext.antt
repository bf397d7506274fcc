-- ===== src/Pattern/Ext.antt =====
-- src/interpreter/pattern.rs: extended globs, `ext_match` and what it calls. An index is the rest from there.
-- `room` is how far the depth is below `MAX_EXTGLOB_DEPTH`, with the last level counted.
pub mod Safe
pub mod Walk
use rust_bash.Prelude.{
  ℕ, zero, suc, ◌+◌, ◌-◌, List, [], ◌∷◌, Bool, true, false, not, ◌&&◌, ◌||◌, Option, none, some,
  if◌then◌else◌, ltb, leb, ◌==◌, length, drop, push,
}
use rust_bash.Prelude.Bytes.{Bytes}
use rust_bash.Vfs.Path.{cons_head}
use rust_bash.Brace.Scan.{also}
use rust_bash.Pattern.Class.{bytes_eq, match_char_class, backslash, behind_first}
use rust_bash.Pattern.Glob.{
  utf8_char_len, Verdict, answer, panic, out_of_fuel, glob_match, glob_match_nocase,
}

abbrev pub max_extglob_depth : ℕ
max_extglob_depth = 64

abbrev pub is_operator : ℕ → Bool
is_operator c = c == b'@' || c == b'+' || c == b'*' || c == b'?' || c == b'!'

abbrev pub starts_paren : Bytes → Bool
starts_paren [] = false
starts_paren (c ∷ p) = c == b'('

abbrev pub opens_group : ℕ → Bytes → Bool
opens_group c p = is_operator c && starts_paren p

abbrev pub group_depth : ℕ → ℕ → Bytes → ℕ
group_depth depth c p =
    if opens_group c p then suc depth else if c == b')' then depth - 1 else depth

-- `find_matching_paren` from behind the `(`: the text before the `)` and behind it. The source's depth is one
-- more; `skip` tells that the byte at hand is escaped or the `(` of a group.
unfoldable pub find_matching_paren : Bool → ℕ → Bytes → Option (Bytes × Bytes)
find_matching_paren skip depth [] = none
find_matching_paren true depth (c ∷ p) = also c (find_matching_paren false depth p)
find_matching_paren false depth (c ∷ p) =
    let rest = find_matching_paren (c == backslash || opens_group c p) (group_depth depth c p) p in
    if c == b')' && depth == 0 then some ([], p) else also c rest

-- What stands between the parentheses of a group that starts here, and behind it.
unfoldable pub try_extglob_at : ℕ → Bytes → Option (Bytes × Bytes)
unfolding find_matching_paren
try_extglob_at c p = if opens_group c p then find_matching_paren false 0 (behind_first p) else none

abbrev pub is_group : Option (Bytes × Bytes) → Bool
is_group none = false
is_group (some _) = true

unfoldable pub has_extglob_syntax : Bool → Bytes → Bool
unfolding try_extglob_at
has_extglob_syntax skip [] = false
has_extglob_syntax true (c ∷ p) = has_extglob_syntax false p
has_extglob_syntax false (c ∷ p) =
    let rest = has_extglob_syntax (c == backslash) p in
    if c == backslash then rest else is_group (try_extglob_at c p) || rest

-- The bytes of a group behind its operator.
abbrev pub group_length : Option (Bytes × Bytes) → ℕ
group_length none = 0
group_length (some (inner, after)) = length inner + 2

unfoldable pub split_at_pipes : ℕ → Bytes → List Bytes
unfolding try_extglob_at
split_at_pipes skip [] = [] ∷ []
split_at_pipes (suc skip) (c ∷ p) = cons_head c (split_at_pipes skip p)
split_at_pipes zero (c ∷ p) =
    let rest = split_at_pipes (if c == backslash then 1 else group_length (try_extglob_at c p)) p in
    if c == b'|' then [] ∷ rest else cons_head c rest

-- A place in the text, which a character that is cut off can put past its end.
pub data Place : Type 0 where
  at : Bytes → Place
  past : Place

abbrev pub is_end : Place → Bool
is_end (at []) = true
is_end (at (c ∷ s)) = false
is_end past = true

abbrev pub advanced : ℕ → Bytes → Place
advanced n s = if leb n (length s) then at (drop n s) else past

-- `if first { return true; }` before what follows, `first && second`, and `!first && second`.
abbrev pub or_try : Verdict → Verdict → Verdict
or_try (answer true) next = answer true
or_try (answer false) next = next
or_try panic next = panic
or_try out_of_fuel next = out_of_fuel

abbrev pub and_try : Verdict → Verdict → Verdict
and_try (answer true) next = next
and_try (answer false) next = answer false
and_try panic next = panic
and_try out_of_fuel next = out_of_fuel

abbrev pub unless_try : Verdict → Verdict → Verdict
unless_try (answer true) next = answer false
unless_try (answer false) next = next
unless_try panic next = panic
unless_try out_of_fuel next = out_of_fuel

-- `for t in ti..=txt.len()`
unfoldable pub any_suffix : (Bytes → Verdict) → Bytes → Verdict
any_suffix f [] = f []
any_suffix f (c ∷ s) = let rest = any_suffix f s in or_try (f (c ∷ s)) rest

-- `for len in 0..=remaining`, where `front` is what is before the cut already.
unfoldable pub any_prefix : (Bytes → Bytes → Verdict) → Bytes → Bytes → Verdict
any_prefix f front [] = f front []
any_prefix f front (c ∷ s) =
    let rest = any_prefix f (push front c) s in or_try (f front (c ∷ s)) rest

-- `for len in 1..=remaining`
abbrev pub any_longer : (Bytes → Bytes → Verdict) → Bytes → Verdict
any_longer f [] = answer false
any_longer f (c ∷ s) = any_prefix f (c ∷ []) s

-- `for alt in alts`
unfoldable pub any_of : (Bytes → Verdict) → List Bytes → Verdict
any_of f [] = answer false
any_of f (alt ∷ alts) = let rest = any_of f alts in or_try (f alt) rest

abbrev pub Matcher : Type 0
Matcher = Bytes → Place → Verdict

-- The count that is still wanted, the pattern behind the group, its alternatives and the text.
abbrev pub Repeater : Type 0
Repeater = ℕ → Bytes → List Bytes → Bytes → Verdict

-- `ext_match_repeat`, given the calls one level deeper.
unfoldable pub ext_match_repeat : Matcher → Repeater → Repeater
unfolding any_of any_prefix
ext_match_repeat deeper again min_count after alts s =
    or_try (if min_count == 0 then deeper after (at s) else answer false) (
      any_of
        (λ alt.
          any_longer
            (λ front rest. and_try (deeper alt (at front)) (again (min_count - 1) after alts rest))
            s)
        alts)

-- One alternative and then the rest, for `@` and `?`.
unfoldable pub match_once : Matcher → Bytes → List Bytes → Bytes → Verdict
unfolding any_of any_prefix
match_once deeper after alts s =
    any_of
      (λ alt.
        any_prefix (λ front rest. and_try (deeper alt (at front)) (deeper after (at rest))) [] s)
      alts

unfoldable pub match_none : Matcher → Bytes → List Bytes → Bytes → Verdict
unfolding any_of any_prefix
match_none deeper after alts s =
    any_prefix
      (λ front rest.
        unless_try (any_of (λ alt. deeper alt (at front)) alts) (deeper after (at rest)))
      [] s

-- `ext_match_group`. Past the end `remaining` wraps around, and the first slice is out of bounds.
unfoldable pub ext_match_group : Matcher → Repeater → ℕ → Bytes → List Bytes → Place → Verdict
unfolding ext_match_repeat match_once match_none
ext_match_group deeper again op after alts past =
    or_try (if op == b'?' || op == b'*' then deeper after past else answer false) panic
ext_match_group deeper again op after alts (at s) =
    if op == b'@'
    then match_once deeper after alts s
    else if op == b'?'
    then or_try (deeper after (at s)) (match_once deeper after alts s)
    else if op == b'+'
    then ext_match_repeat deeper again 1 after alts s
    else if op == b'*'
    then ext_match_repeat deeper again 0 after alts s
    else if op == b'!'
    then match_none deeper after alts s
    else answer false

-- The stars behind a star are passed, but not one that starts a group.
unfoldable pub skip_stars : Bytes → Bytes
skip_stars [] = []
skip_stars (c ∷ p) =
    let rest = skip_stars p in if c == b'*' then (if starts_paren p then c ∷ p else rest) else c ∷ p

-- What `ext_match` does at the head of the pattern: it goes on at the same depth, or it has its answer.
pub data Next : Type 0 where
  go_on : Bytes → Place → Next
  stop : Verdict → Next

abbrev pub go_if : Bool → Bytes → Place → Next
go_if b p t = if b then go_on p t else stop (answer false)

abbrev pub class_next : ℕ → Bytes → Bool → Bytes → Option (Bool × Bytes) → Next
class_next x s nocase p (some (matched, rest)) = go_if matched rest (at s)
class_next x s nocase p none = go_if (bytes_eq b'[' x nocase) p (at s)

abbrev pub star_next : Matcher → Bytes → Place → Next
star_next deeper p (at s) = stop (any_suffix (λ r. deeper (skip_stars p) (at r)) s)
star_next deeper p past = stop (answer false)

-- The branches that are neither an escape nor a group.
unfoldable pub single_next : Matcher → Bool → ℕ → Bytes → Place → Next
unfolding any_suffix skip_stars
single_next deeper nocase c p (at (x ∷ s)) =
    if c == b'?'
    then go_on p (advanced (utf8_char_len x) (x ∷ s))
    else if c == b'['
    then class_next x s nocase p (match_char_class p x nocase)
    else if c == b'*'
    then star_next deeper p (at (x ∷ s))
    else go_if (bytes_eq c x nocase) p (at s)
single_next deeper nocase c p t = if c == b'*' then star_next deeper p t else stop (answer false)

abbrev pub escaped_next : Bool → ℕ → Bytes → Place → Next
escaped_next nocase d p (at (x ∷ s)) = go_if (bytes_eq d x nocase) p (at s)
escaped_next nocase d p t = stop (answer false)

abbrev pub group_next :
    Matcher → Repeater → Bool → ℕ → Bytes → Place → Option (Bytes × Bytes) → Next
group_next deeper again nocase c p t none = single_next deeper nocase c p t
group_next deeper again nocase c p t (some (inner, after)) =
    stop (ext_match_group deeper again c after (split_at_pipes 0 inner) t)

unfoldable pub next_step : Matcher → Repeater → Bool → Bytes → Place → Next
unfolding single_next ext_match_group split_at_pipes try_extglob_at
next_step deeper again nocase [] t = stop (answer (is_end t))
next_step deeper again nocase (c ∷ []) t = single_next deeper nocase c [] t
next_step deeper again nocase (c ∷ d ∷ p) t =
    if c == backslash
    then escaped_next nocase d p t
    else group_next deeper again nocase c (d ∷ p) t (try_extglob_at c (d ∷ p))

-- The tail calls of `ext_match` at one depth: each has a shorter pattern.
unfoldable pub ext_walk : Matcher → Repeater → Bool → ℕ → Matcher
unfolding next_step
ext_walk deeper again nocase zero p t = out_of_fuel
ext_walk deeper again nocase (suc fuel) p t = elim (next_step deeper again nocase p t) [
  | go_on p' t' ↦ ext_walk deeper again nocase fuel p' t'
  | stop v ↦ v
]

unfoldable mutual
  unfolding ext_walk ext_match_repeat

  pub ext_match : Bool → ℕ → Matcher
  ext_match nocase zero p t = answer false
  ext_match nocase (suc room) p t =
      ext_walk (ext_match nocase room) (repeat_deeper nocase room) nocase (suc (length p)) p t

  pub repeat_deeper : Bool → ℕ → Repeater
  repeat_deeper nocase zero min_count after alts s = answer false
  repeat_deeper nocase (suc room) min_count after alts s =
      ext_match_repeat (ext_match nocase room) (repeat_deeper nocase room) min_count after alts s

unfoldable pub extglob_match : Bytes → Bytes → Verdict
unfolding ext_match has_extglob_syntax glob_match
extglob_match p s =
    if has_extglob_syntax false p
    then ext_match false (suc max_extglob_depth) p (at s)
    else glob_match p s

unfoldable pub extglob_match_nocase : Bytes → Bytes → Verdict
unfolding ext_match has_extglob_syntax glob_match_nocase
extglob_match_nocase p s =
    if has_extglob_syntax false p
    then ext_match true (suc max_extglob_depth) p (at s)
    else glob_match_nocase p s

-- `do_match`, for both kinds of pattern.
unfoldable pub do_match : Bytes → Bytes → Bool → Verdict
unfolding extglob_match glob_match
do_match p s true = extglob_match p s
do_match p s false = glob_match p s
