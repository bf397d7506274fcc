-- ===== src/Pattern/Class.antt =====
-- src/interpreter/pattern.rs: bracket expressions, `match_char_class` and what it calls. A slice and an
-- index into it are the rest of the bytes from that index, and `i += n` skips n bytes.
use rust_bash.Prelude.{
  ℕ, zero, suc, ◌+◌, [], ◌∷◌, Bool, true, false, not, ◌&&◌, ◌||◌, Option, none, some, if◌then◌else◌,
  ltb, leb, ◌==◌, length,
}
use rust_bash.Prelude.Bytes.{Bytes, codes, beq}

abbrev pub in_range : ℕ → ℕ → ℕ → Bool
in_range lo hi c = leb lo c && leb c hi

-- The `is_ascii_…` predicates of `u8`.
abbrev pub is_upper : ℕ → Bool
is_upper c = in_range b'A' b'Z' c

abbrev pub is_lower : ℕ → Bool
is_lower c = in_range b'a' b'z' c

abbrev pub is_digit : ℕ → Bool
is_digit c = in_range b'0' b'9' c

abbrev pub is_alphabetic : ℕ → Bool
is_alphabetic c = is_upper c || is_lower c

abbrev pub is_alphanumeric : ℕ → Bool
is_alphanumeric c = is_alphabetic c || is_digit c

-- Space, tab, line feed, form feed and carriage return.
abbrev pub is_whitespace : ℕ → Bool
is_whitespace c = c == 32 || c == 9 || c == 10 || c == 12 || c == 13

abbrev pub is_graphic : ℕ → Bool
is_graphic c = in_range 33 126 c

abbrev pub is_punctuation : ℕ → Bool
is_punctuation c = is_graphic c && not (is_alphanumeric c)

abbrev pub is_hexdigit : ℕ → Bool
is_hexdigit c = is_digit c || in_range b'A' b'F' c || in_range b'a' b'f' c

unfoldable pub to_lower : ℕ → ℕ
to_lower c = if is_upper c then c + 32 else c

-- `bytes_eq`; `eq_ignore_ascii_case` compares the lower cases.
unfoldable pub bytes_eq : ℕ → ℕ → Bool → Bool
bytes_eq a b true = to_lower a == to_lower b
bytes_eq a b false = a == b

unfoldable pub posix_class_matches : Bytes → ℕ → Bool
posix_class_matches name ch =
    if beq name (codes "alpha")
    then is_alphabetic ch
    else if beq name (codes "digit")
    then is_digit ch
    else if beq name (codes "alnum")
    then is_alphanumeric ch
    else if beq name (codes "upper")
    then is_upper ch
    else if beq name (codes "lower")
    then is_lower ch
    else if beq name (codes "space")
    then is_whitespace ch
    else if beq name (codes "blank")
    then ch == 32 || ch == 9
    else if beq name (codes "print")
    then in_range 0x20 0x7e ch
    else if beq name (codes "graph")
    then ltb 0x20 ch && leb ch 0x7e
    else if beq name (codes "cntrl")
    then ltb ch 0x20 || ch == 0x7f
    else if beq name (codes "punct")
    then is_punctuation ch
    else if beq name (codes "xdigit")
    then is_hexdigit ch
    else if beq name (codes "ascii")
    then ltb ch 128
    else false

abbrev pub extend : ℕ → Option Bytes → Option Bytes
extend c none = none
extend c (some name) = some (c ∷ name)

-- `find_posix_class_end` from behind `[:`: the name before `:]`.
unfoldable pub posix_name : Bytes → Option Bytes
posix_name [] = none
posix_name (c ∷ []) = none
posix_name (c ∷ d ∷ p) =
    let rest = posix_name (d ∷ p) in
    if c == b':' && d == b']' then some [] else if is_alphanumeric c then extend c rest else none

-- The name of the class that starts here, if one does.
unfoldable pub posix_at : Bytes → Option Bytes
posix_at (c ∷ d ∷ p) = if c == b'[' && d == b':' then posix_name p else none
posix_at _ = none

unfoldable pub range_matches : ℕ → ℕ → ℕ → Bool → Bool
range_matches lo hi ch true = in_range (to_lower lo) (to_lower hi) (to_lower ch)
range_matches lo hi ch false = in_range lo hi ch

abbrev pub backslash : ℕ
backslash = 92

-- One member at the head of the class: whether it matches, and how many bytes it has after the first.
unfoldable pub plain_member : ℕ → Bool → Bytes → Bool × ℕ
plain_member ch nocase [] = (false, 0)
plain_member ch nocase (c ∷ []) = (bytes_eq c ch nocase, 0)
plain_member ch nocase (c ∷ d ∷ []) =
    if c == backslash then (bytes_eq d ch nocase, 1) else (bytes_eq c ch nocase, 0)
plain_member ch nocase (c ∷ d ∷ e ∷ p) =
    if c == backslash
    then (bytes_eq d ch nocase, 1)
    else if d == b'-' && not (e == b']')
    then (range_matches c e ch nocase, 2)
    else (bytes_eq c ch nocase, 0)

unfoldable pub member : ℕ → Bool → Bytes → Bool × ℕ
member ch nocase p = elim (posix_at p) [
  | some name ↦ (posix_class_matches name ch, length name + 3)
  | none ↦ plain_member ch nocase p
]

-- The loop over the members: what matched, and the pattern behind the closing bracket.
unfoldable pub members : ℕ → Bool → ℕ → Bool → Bytes → Option (Bool × Bytes)
members ch nocase skip matched [] = none
members ch nocase (suc skip) matched (c ∷ p) = members ch nocase skip matched p
members ch nocase zero matched (c ∷ p) =
    let m = member ch nocase (c ∷ p) in
    let rest = members ch nocase m.1 (matched || m.0) p in
    if c == b']' then some (matched, p) else rest

-- A bracket that stands first is a member.
unfoldable pub class_body : ℕ → Bool → Bytes → Option (Bool × Bytes)
class_body ch nocase [] = none
class_body ch nocase (c ∷ p) =
    if c == b']'
    then members ch nocase 0 (bytes_eq ch b']' nocase) p
    else members ch nocase 0 false (c ∷ p)

-- The lookahead behind `^]`: is there a member before the next bracket?
unfoldable pub extra_member : Bool → Bytes → Bool
extra_member found [] = found
extra_member found (c ∷ []) = if c == b']' then found else true
extra_member found (c ∷ d ∷ p) =
    let escaped = extra_member true p in
    let rest = extra_member true (d ∷ p) in
    if c == b']' then found else if c == backslash then escaped else rest

abbrev pub starts_bracket : Bytes → Bool
starts_bracket [] = false
starts_bracket (c ∷ p) = c == b']'

abbrev pub behind_first : Bytes → Bytes
behind_first [] = []
behind_first (c ∷ p) = p

-- Is a `^` with this behind it a negation?
unfoldable pub caret_negates : Bytes → Bool
caret_negates p = if starts_bracket p then extra_member false (behind_first p) else true

unfoldable pub is_negated : Bytes → Bool
is_negated [] = false
is_negated (c ∷ p) = if c == b'!' then true else if c == b'^' then caret_negates p else false

abbrev pub negate : Bool → Option (Bool × Bytes) → Option (Bool × Bytes)
negate negated none = none
negate negated (some (matched, p)) = some (if negated then not matched else matched, p)

-- `match_char_class`, given the pattern behind the `[` that its callers have seen.
unfoldable pub match_char_class : Bytes → ℕ → Bool → Option (Bool × Bytes)
match_char_class p ch nocase =
    let negated = is_negated p in
    negate negated (class_body ch nocase (if negated then behind_first p else p))
