-- ===== src/Tests/Replacing.antt =====
-- Runs of `first_match` and `replace_all` of src/interpreter/pattern.rs.
use rust_bash.Prelude.{◌≡◌, refl, ◌==◌, ltb, length, Bool, ◌&&◌, [], ◌∷◌, none, some, false}
use rust_bash.Prelude.Bytes.{Bytes, codes}
use rust_bash.Pattern.Replace.{first_match_ext_with_mode, replace_all_ext_with_mode}
use rust_bash.Pattern.Replace.Laws.{Replaced, replace_all-Replaced}
use rust_bash.Pattern.Replace.First.{FindsFrom, first_match-FindsFrom}

-- The test of the pattern `l*`, where the text has no more after it than one byte.
abbrev starts_l : Bytes → Bool
starts_l [] = false
starts_l (c ∷ s) = (c == b'l') && ltb (length s) 2

first_run : first_match_ext_with_mode starts_l (codes "hello") false ≡ some (2, 4)
unfolding first_match_ext_with_mode
first_run = refl

first_none : first_match_ext_with_mode starts_l (codes "word") false ≡ none
unfolding first_match_ext_with_mode
first_none = refl

replace_run :
    replace_all_ext_with_mode (λ s. s) starts_l (codes "hello") (codes "r") false
    ≡ some (codes "hero")
unfolding replace_all_ext_with_mode
replace_run = refl

replace_all-Replaced_example :
    (out : Bytes) × (replace_all_ext_with_mode (λ s. s) starts_l (codes "hello") (codes "r") false
      ≡ some out)
    × Replaced starts_l (codes "r") false (codes "hello") out
replace_all-Replaced_example = replace_all-Replaced (λ s. s) starts_l (codes "r") (codes "hello")

first_match-FindsFrom_example :
    FindsFrom starts_l
      (codes "hello")
      0
      6
      (first_match_ext_with_mode starts_l (codes "hello") false)
first_match-FindsFrom_example = first_match-FindsFrom starts_l (codes "hello")
