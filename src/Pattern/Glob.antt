-- ===== src/Pattern/Glob.antt =====
-- src/interpreter/pattern.rs: `glob_match_inner`. The positions `pi`, `ti`, `star_pi + 1` and `star_ti`
-- are the rest of the pattern and of the text from there.
use rust_bash.Prelude.{
  ℕ, zero, suc, ◌+◌, ◌*◌, [], ◌∷◌, Bool, true, false, ◌&&◌, Option, none, some, if◌then◌else◌, ltb,
  ◌==◌, length, drop,
}
use rust_bash.Prelude.Bytes.{Bytes}
use rust_bash.Pattern.Class.{bytes_eq, match_char_class, backslash}

unfoldable pub utf8_char_len : ℕ → ℕ
utf8_char_len b = if ltb b 0x80 then 1 else if ltb b 0xE0 then 2 else if ltb b 0xF0 then 3 else 4

pub record Mode : Type 0 where
  pub nocase : Bool
  pub path_mode : Bool
  pub byte_mode : Bool

-- `if byte_mode { 1 } else { utf8_char_len(b) }`
unfoldable pub char_len : Mode → ℕ → ℕ
unfolding utf8_char_len
char_len m b = if m.byte_mode then 1 else utf8_char_len b

-- What one round does at the head of the pattern, for a text that is not at its end.
pub data Action : Type 0 where
  -- The pattern and the text go on, the text by this many bytes.
  advance : Bytes → ℕ → Action
  star : Bytes → Action
  mismatch : Action

abbrev pub when : Bool → Action → Action
when b a = if b then a else mismatch

abbrev pub class_action : ℕ → ℕ → Bool → Bytes → Option (Bool × Bytes) → Action
class_action c b nocase p (some (matched, rest)) = when matched (advance rest 1)
class_action c b nocase p none = when (bytes_eq c b nocase) (advance p 1)

-- The branches below the escape.
unfoldable pub plain_action : Mode → ℕ → Bytes → ℕ → Action
plain_action m c p b =
    if c == b'?'
    then (if m.path_mode && b == b'/' then mismatch else advance p (char_len m b))
    else if c == b'['
    then class_action c b m.nocase p (match_char_class p b m.nocase)
    else if c == b'*'
    then star p
    else when (bytes_eq c b m.nocase) (advance p 1)

unfoldable pub action : Mode → Bytes → ℕ → Action
unfolding plain_action
action m [] b = mismatch
action m (c ∷ []) b = plain_action m c [] b
action m (c ∷ d ∷ p) b =
    if c == backslash
    then when (bytes_eq b d m.nocase) (advance p 1)
    else plain_action m c (d ∷ p) b

-- The pattern behind the last star, and the text from which that star has to give the rest.
abbrev pub Star : Type 0
Star = Option (Bytes × Bytes)

pub data Verdict : Type 0 where
  answer : Bool → Verdict
  -- `txt[star_ti]` out of bounds
  panic : Verdict
  out_of_fuel : Verdict

abbrev pub Round : Type 0
Round = Bytes → Bytes → Star → Verdict

-- The lower half of the loop: back to the last star.
unfoldable pub backtrack : Mode → Star → Round → Verdict
backtrack m none next = answer false
backtrack m (some (p, [])) next = panic
backtrack m (some (p, c ∷ s)) next =
    let rest = drop (char_len m c) (c ∷ s) in
    if m.path_mode && c == b'/' then answer false else next p rest (some (p, rest))

-- The loop that consumes trailing stars, and the final test.
unfoldable pub only_stars : Bytes → Bool
only_stars [] = true
only_stars (c ∷ p) = c == b'*' && only_stars p

-- The rest of the loop's body, for a text with `c` at its head.
unfoldable pub round : Mode → Action → ℕ → Bytes → Star → Round → Verdict
round m (advance p' n) c s back next = next p' (drop n (c ∷ s)) back
round m (star p') c s back next = next p' (c ∷ s) (some (p', c ∷ s))
round m mismatch c s back next = backtrack m back next

unfoldable pub glob_loop : Mode → ℕ → Round
unfolding action backtrack round only_stars
glob_loop m zero p s back = out_of_fuel
glob_loop m (suc f) p [] back = answer (only_stars p)
glob_loop m (suc f) p (c ∷ s) back = round m (action m p c) c s back (glob_loop m f)

-- The rounds: one for each pair of a place in the text and one in the pattern.
abbrev pub glob_fuel : Bytes → Bytes → ℕ
glob_fuel p s = (length s + 1) * (length p + 1)

unfoldable pub glob_match_inner : Mode → Bytes → Bytes → Verdict
unfolding glob_loop
glob_match_inner m p s = glob_loop m (glob_fuel p s) p s none

unfoldable pub glob_match : Bytes → Bytes → Verdict
unfolding glob_match_inner
glob_match p s =
    glob_match_inner (record { nocase = false; path_mode = false; byte_mode = false }) p s

unfoldable pub glob_match_nocase : Bytes → Bytes → Verdict
unfolding glob_match_inner
glob_match_nocase p s =
    glob_match_inner (record { nocase = true; path_mode = false; byte_mode = false }) p s

unfoldable pub glob_match_path : Bytes → Bytes → Verdict
unfolding glob_match_inner
glob_match_path p s =
    glob_match_inner (record { nocase = false; path_mode = true; byte_mode = false }) p s
