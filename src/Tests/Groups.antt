-- ===== src/Tests/Groups.antt =====
-- Runs of `extglob_match` of src/interpreter/pattern.rs, with inputs of its unit tests among them.
use rust_bash.Prelude.{◌≡◌, refl, [], ◌∷◌, true, false, arith}
use rust_bash.Prelude.Bytes.{codes}
use rust_bash.Pattern.Class.{bytes_eq}
use rust_bash.Pattern.Glob.{answer, panic, utf8_char_len}
use rust_bash.Pattern.Search.{IsAnswer}
use rust_bash.Pattern.Ext.{extglob_match}
use rust_bash.Pattern.Ext.Walk.{extglob_match-IsAnswer}

one_of : extglob_match (codes "--@(help|verbose)") (codes "--help") ≡ answer true
unfolding extglob_match bytes_eq utf8_char_len
one_of = refl

one_of_no : extglob_match (codes "?(a|b)") (codes "ab") ≡ answer false
unfolding extglob_match bytes_eq utf8_char_len
one_of_no = refl

repeated : extglob_match (codes "+(foo)") (codes "foofoo") ≡ answer true
unfolding extglob_match bytes_eq utf8_char_len
repeated = refl

negated : extglob_match (codes "!(dog)") (codes "dog") ≡ answer false
unfolding extglob_match bytes_eq utf8_char_len
negated = refl

inner_glob : extglob_match (codes "@(*.c|*.h)") (codes "bar.h") ≡ answer true
unfolding extglob_match bytes_eq utf8_char_len
inner_glob = refl

nested : extglob_match (codes "@(a|@(b|c))") (codes "c") ≡ answer true
unfolding extglob_match bytes_eq utf8_char_len
nested = refl

-- The `?` passes the end of the text that is cut inside `é`, and the group behind it has no slice to try.
cut_character : extglob_match (codes "@(?@(a))") (195 ∷ 169 ∷ []) ≡ panic
unfolding extglob_match bytes_eq utf8_char_len
cut_character = refl

extglob_match-IsAnswer_example : IsAnswer (extglob_match (codes "+(a|b)*c") (codes "abxc"))
extglob_match-IsAnswer_example =
    extglob_match-IsAnswer (codes "+(a|b)*c") (codes "abxc")
      (omega arith, (omega arith, (omega arith, (omega arith, tt))))
