-- ===== src/Brace/Scan.antt =====
-- src/interpreter/brace.rs: the scanners. An index into the bytes is the rest from there; the `skip_…`
-- functions give the number of bytes they pass, and a scan that is `skip` bytes ahead only copies.
use rust_bash.Prelude.{
  ℕ, zero, suc, ◌-◌, List, [], ◌∷◌, Bool, true, false, ◌&&◌, Option, none, some, if◌then◌else◌,
  ◌==◌,
}
use rust_bash.Prelude.Bytes.{Bytes}
use rust_bash.Vfs.Path.{cons_head}

abbrev pub escape_byte : ℕ
escape_byte = 92

abbrev pub depth_after : ℕ → ℕ → ℕ → ℕ → ℕ
depth_after opening closing depth c =
    if c == opening then suc depth else if c == closing then depth - 1 else depth

-- The loop of `skip_dollar_brace` and `skip_dollar_paren`, with their delimiters, and whether the byte at
-- hand stands behind a backslash.
unfoldable pub skip_nested : ℕ → ℕ → Bool → ℕ → Bytes → ℕ
skip_nested opening closing escaped zero p = 0
skip_nested opening closing escaped (suc depth) [] = 0
skip_nested opening closing true (suc depth) (c ∷ p) =
    suc (skip_nested opening closing false (suc depth) p)
skip_nested opening closing false (suc depth) (c ∷ p) =
    suc
      (skip_nested opening closing (c == escape_byte) (depth_after opening closing (suc depth) c) p)

-- From behind `${`.
unfoldable pub skip_dollar_brace : Bytes → ℕ
unfolding skip_nested
skip_dollar_brace p = skip_nested b'{' b'}' false 1 p

-- From behind `$(`.
unfoldable pub skip_dollar_paren : Bytes → ℕ
unfolding skip_nested
skip_dollar_paren p = skip_nested b'(' b')' false 1 p

-- From behind the opening quote.
unfoldable pub skip_single_quote : Bytes → ℕ
skip_single_quote [] = 0
skip_single_quote (c ∷ p) = let rest = skip_single_quote p in if c == 39 then 1 else suc rest

-- The loop of `skip_double_quote` and `skip_backtick`, with their delimiter, and whether the byte at hand
-- stands behind a backslash.
unfoldable pub skip_quoted : ℕ → Bool → Bytes → ℕ
skip_quoted quote escaped [] = 0
skip_quoted quote true (c ∷ p) = suc (skip_quoted quote false p)
skip_quoted quote false (c ∷ p) =
    let rest = skip_quoted quote (c == escape_byte) p in if c == quote then 1 else suc rest

unfoldable pub skip_double_quote : Bytes → ℕ
unfolding skip_quoted
skip_double_quote p = skip_quoted b'"' false p

unfoldable pub skip_backtick : Bytes → ℕ
unfolding skip_quoted
skip_backtick p = skip_quoted b'`' false p

-- `(i + 2).min(len)`
abbrev pub skip_escaped : Bytes → ℕ
skip_escaped [] = 0
skip_escaped (c ∷ p) = 1

-- Behind a `$`: a substitution, with its opening bracket.
unfoldable pub skip_dollar : Bytes → Option ℕ
skip_dollar [] = none
skip_dollar (c ∷ p) =
    if c == b'{'
    then some (suc (skip_dollar_brace p))
    else if c == b'('
    then some (suc (skip_dollar_paren p))
    else none

-- The first six arms that the three scans share: the bytes to pass behind the one at hand.
unfoldable pub special : ℕ → Bytes → Option ℕ
special c p =
    if c == escape_byte
    then some (skip_escaped p)
    else if c == 39
    then some (skip_single_quote p)
    else if c == b'"'
    then some (skip_double_quote p)
    else if c == b'`'
    then some (skip_backtick p)
    else if c == b'$'
    then skip_dollar p
    else none

-- How far a scan jumps behind this byte, and whether the byte stands for itself.
abbrev pub jump : Option ℕ → ℕ
jump none = 0
jump (some n) = n

abbrev pub is_plain : Option ℕ → Bool
is_plain none = true
is_plain (some n) = false

abbrev pub nesting : Option ℕ → ℕ → ℕ → ℕ
nesting none depth c = depth_after b'{' b'}' depth c
nesting (some n) depth c = depth

abbrev pub also : ℕ → Option (Bytes × Bytes) → Option (Bytes × Bytes)
also c none = none
also c (some (body, suffix)) = some (c ∷ body, suffix)

-- `find_matching_close`, given what is behind the open brace: the text before and behind the close. The
-- source's depth is one more.
unfoldable pub find_matching_close : ℕ → ℕ → Bytes → Option (Bytes × Bytes)
find_matching_close skip depth [] = none
find_matching_close (suc skip) depth (c ∷ p) = also c (find_matching_close skip depth p)
find_matching_close zero depth (c ∷ p) =
    let s = special c p in
    let rest = find_matching_close (jump s) (nesting s depth c) p in
    if is_plain s && c == b'}' && depth == 0 then some ([], p) else also c rest

abbrev pub Pair : Type 0
Pair = Bytes × Bytes × Bytes

abbrev pub before : ℕ → Option Pair → Option Pair
before c none = none
before c (some (prefix, body, suffix)) = some (c ∷ prefix, body, suffix)

abbrev pub at_brace : Option (Bytes × Bytes) → Option Pair → Option Pair
at_brace none later = before b'{' later
at_brace (some (body, suffix)) later = some ([], body, suffix)

-- `find_brace_pair`: the text before the open brace, between the two and behind the close.
unfoldable pub find_brace_pair : ℕ → Bytes → Option Pair
find_brace_pair skip [] = none
find_brace_pair (suc skip) (c ∷ p) = before c (find_brace_pair skip p)
find_brace_pair zero (c ∷ p) =
    let s = special c p in
    let later = find_brace_pair (jump s) p in
    if is_plain s && c == b'{' then at_brace (find_matching_close 0 0 p) later else before c later

unfoldable pub split_alternatives : ℕ → ℕ → Bytes → List Bytes
split_alternatives skip depth [] = [] ∷ []
split_alternatives (suc skip) depth (c ∷ p) = cons_head c (split_alternatives skip depth p)
split_alternatives zero depth (c ∷ p) =
    let s = special c p in
    let rest = split_alternatives (jump s) (nesting s depth c) p in
    if is_plain s && c == b',' && depth == 0 then [] ∷ rest else cons_head c rest
