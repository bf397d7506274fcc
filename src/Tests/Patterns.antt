-- ===== src/Tests/Patterns.antt =====
-- Runs of `glob_match_inner` of src/interpreter/pattern.rs, with inputs of its unit tests among them.
use rust_bash.Prelude.{Bool, some, ltb, length, ◌≡◌, refl, true, false, ◌↔◌, [], ◌∷◌}
use rust_bash.Prelude.Bytes.{Bytes, codes, beq}
use rust_bash.Pattern.Class.{
  match_char_class, class_body, is_negated, members, member, posix_at, plain_member, range_matches,
  posix_name, posix_class_matches, bytes_eq, to_lower,
}
use rust_bash.Pattern.Glob.{
  Mode, answer, char_len, glob_match_inner, glob_match, glob_match_nocase, glob_match_path,
}
use rust_bash.Pattern.Affix.{
  is_char_boundary, longest_suffix_match_ext_with_mode, longest_prefix_match_ext_with_mode,
}
use rust_bash.Pattern.Matches.{Matches}
use rust_bash.Pattern.Search.{IsAnswer, glob_match_inner-IsAnswer}
use rust_bash.Pattern.Decides.{glob_match_inner-Matches}

abbrev plain : Mode
plain = record { nocase = false; path_mode = false; byte_mode = false }

abbrev in_path : Mode
in_path = record { nocase = false; path_mode = true; byte_mode = false }

stars : glob_match (codes "*a*b*") (codes "xaxaxb") ≡ answer true
unfolding glob_match match_char_class class_body is_negated members member posix_at plain_member
    range_matches char_len posix_name posix_class_matches beq bytes_eq to_lower
stars = refl

classes : glob_match (codes "[!a-c]?[[:digit:]]") (codes "xy7") ≡ answer true
unfolding glob_match match_char_class class_body is_negated members member posix_at plain_member
    range_matches char_len posix_name posix_class_matches beq bytes_eq to_lower
classes = refl

nocase_run : glob_match_nocase (codes "ABC*") (codes "abcd") ≡ answer true
unfolding glob_match_nocase match_char_class class_body is_negated members member posix_at
    plain_member range_matches char_len posix_name posix_class_matches beq bytes_eq to_lower
nocase_run = refl

path_run : glob_match_path (codes "*.rs") (codes "a/b.rs") ≡ answer false
unfolding glob_match_path match_char_class class_body is_negated members member posix_at
    plain_member range_matches char_len posix_name posix_class_matches beq bytes_eq to_lower
path_run = refl

-- A bracket takes one byte of a character of two.
two_bytes : glob_match (codes "[!a]") (195 ∷ 169 ∷ []) ≡ answer false
unfolding glob_match match_char_class class_body is_negated members member posix_at plain_member
    range_matches char_len posix_name posix_class_matches beq bytes_eq to_lower
two_bytes = refl

glob_match_inner-IsAnswer_example :
    IsAnswer (glob_match_inner in_path (codes "*/?[a") (codes "x/y/[a"))
glob_match_inner-IsAnswer_example =
    glob_match_inner-IsAnswer in_path (codes "*/?[a") (codes "x/y/[a")

glob_match_inner-Matches_example :
    (glob_match_inner plain (codes "*a?") (codes "aab") ≡ answer true)
    ↔ Matches plain (codes "*a?") (codes "aab")
unfolding char_len
glob_match_inner-Matches_example =
    glob_match_inner-Matches plain (codes "*a?") (codes "aab") refl (refl, (refl, (refl, tt)))

-- The text is `é` between two letters, so an index of 2 is inside a character.
abbrev accented : Bytes
accented = b'a' ∷ 195 ∷ 169 ∷ b'b' ∷ []

abbrev not_whole : Bytes → Bool
not_whole s = ltb (length s) 4

suffix_run : longest_suffix_match_ext_with_mode not_whole accented false ≡ some 1
unfolding longest_suffix_match_ext_with_mode is_char_boundary
suffix_run = refl

prefix_run : longest_prefix_match_ext_with_mode not_whole accented false ≡ some 3
unfolding longest_prefix_match_ext_with_mode is_char_boundary
prefix_run = refl

at_start : is_char_boundary accented 0 ≡ true
unfolding is_char_boundary
at_start = refl

at_end : is_char_boundary accented 4 ≡ true
unfolding is_char_boundary
at_end = refl
