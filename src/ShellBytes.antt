-- ===== src/ShellBytes.antt =====
-- src/shell_bytes.rs: byte streams inside strings. A `String` is the list of its characters; `next_char` is one step of
-- `str::from_utf8`, so a valid front is pushed one character at a time.
pub mod Laws
use rust_bash.Prelude.{
  ℕ, zero, suc, ◌+◌, ◌-◌, ◌*◌, ◌/◌, ◌%◌, List, [], ◌∷◌, ◌++◌, map, Bool, true, false, ◌||◌, Option,
  none, some, if◌then◌else◌, ltb, leb, length, take, drop,
}
use rust_bash.Prelude.Bytes.{Bytes}
use rust_bash.Pattern.Class.{in_range}

abbrev pub marker_base : ℕ
marker_base = 0xE000

-- `Ok` or `valid_up_to` goes on behind a character; otherwise `error_len`.
pub data Utf8 : Type 0 where
  valid : ℕ → Bytes → Utf8
  invalid : ℕ → Utf8
  truncated : Utf8

abbrev pub is_continuation : ℕ → Bool
is_continuation b = in_range 0x80 0xBF b

abbrev pub two_bytes : ℕ → Bytes → Utf8
two_bytes b [] = truncated
two_bytes b (c ∷ p) =
    if is_continuation c then valid ((b - 0xC0) * 64 + (c - 0x80)) p else invalid 1

abbrev pub third_byte : ℕ → ℕ → Bytes → Utf8
third_byte b c [] = truncated
third_byte b c (d ∷ p) =
    if is_continuation d
    then valid ((b - 0xE0) * 4096 + (c - 0x80) * 64 + (d - 0x80)) p
    else invalid 2

-- `E0` is followed by `A0` at least, and `ED` by `9F` at most.
abbrev pub three_bytes : ℕ → Bytes → Utf8
three_bytes b [] = truncated
three_bytes b (c ∷ p) =
    if in_range (if ltb b 0xE1 then 0xA0 else 0x80) (if in_range 0xED 0xED b then 0x9F else 0xBF) c
    then third_byte b c p
    else invalid 1

abbrev pub fourth_byte : ℕ → ℕ → ℕ → Bytes → Utf8
fourth_byte b c d [] = truncated
fourth_byte b c d (e ∷ p) =
    if is_continuation e
    then valid ((b - 0xF0) * 262144 + (c - 0x80) * 4096 + (d - 0x80) * 64 + (e - 0x80)) p
    else invalid 3

abbrev pub third_of_four : ℕ → ℕ → Bytes → Utf8
third_of_four b c [] = truncated
third_of_four b c (d ∷ p) = if is_continuation d then fourth_byte b c d p else invalid 2

-- `F0` is followed by `90` at least, and `F4` by `8F` at most.
abbrev pub four_bytes : ℕ → Bytes → Utf8
four_bytes b [] = truncated
four_bytes b (c ∷ p) =
    if in_range (if ltb b 0xF1 then 0x90 else 0x80) (if ltb b 0xF4 then 0xBF else 0x8F) c
    then third_of_four b c p
    else invalid 1

unfoldable pub next_char : ℕ → Bytes → Utf8
next_char b p =
    if ltb b 0x80
    then valid b p
    else if in_range 0xC2 0xDF b
    then two_bytes b p
    else if in_range 0xE0 0xEF b
    then three_bytes b p
    else if in_range 0xF0 0xF4 b
    then four_bytes b p
    else invalid 1

abbrev pub pushed : ℕ → ℕ
pushed b = if ltb b 0x80 then b else marker_base + b

unfoldable pub decode_loop : ℕ → Bytes → List ℕ
unfolding next_char
decode_loop fuel [] = []
decode_loop zero (b ∷ p) = []
decode_loop (suc fuel) (b ∷ p) = elim (next_char b p) [
  | valid ch rest ↦ ch ∷ decode_loop fuel rest
  | invalid n ↦ map pushed (take n (b ∷ p)) ++ decode_loop fuel (drop n (b ∷ p))
  | truncated ↦ map pushed (b ∷ p)
]

unfoldable pub decode_shell_bytes : Bytes → List ℕ
unfolding decode_loop
decode_shell_bytes bytes = decode_loop (length bytes) bytes

unfoldable pub marker_byte : ℕ → Option ℕ
marker_byte ch =
    if in_range marker_base (marker_base + 0xFF) ch then some (ch - marker_base) else none

abbrev pub is_marker : Option ℕ → Bool
is_marker none = false
is_marker (some byte) = true

unfoldable pub contains_markers : List ℕ → Bool
unfolding marker_byte
contains_markers [] = false
contains_markers (ch ∷ s) = let rest = contains_markers s in is_marker (marker_byte ch) || rest

-- `char::encode_utf8`
unfoldable pub encode_utf8 : ℕ → Bytes
encode_utf8 ch =
    if ltb ch 0x80
    then ch ∷ []
    else if ltb ch 0x800
    then (0xC0 + ch / 64) ∷ (0x80 + ch % 64) ∷ []
    else if ltb ch 0x10000
    then (0xE0 + ch / 4096) ∷ (0x80 + ch / 64 % 64) ∷ (0x80 + ch % 64) ∷ []
    else (0xF0 + ch / 262144)
      ∷ (0x80 + ch / 4096 % 64)
      ∷ (0x80 + ch / 64 % 64)
      ∷ (0x80 + ch % 64)
      ∷ []

unfoldable pub encode_char : ℕ → Bytes
unfolding marker_byte encode_utf8
encode_char ch = elim (marker_byte ch) [ some byte ↦ byte ∷ [] | none ↦ encode_utf8 ch ]

unfoldable pub encode_shell_string : List ℕ → Bytes
unfolding encode_char
encode_shell_string [] = []
encode_shell_string (ch ∷ s) = encode_char ch ++ encode_shell_string s
