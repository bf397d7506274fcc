-- ===== src/Pattern/Ext/Safe.antt =====
-- src/interpreter/pattern.rs: the groups of `ext_match` on texts of single bytes.
use rust_bash.Prelude.{
  ℕ, ◌-◌, ◌<◌, List, [], ◌∷◌, Bool, true, false, if◌then◌else◌, ◌==◌, push, All, All-push,
}
use rust_bash.Prelude.Bytes.{Bytes}
use rust_bash.Pattern.Glob.{Verdict, answer, panic, out_of_fuel}
use rust_bash.Pattern.Search.{IsAnswer}
use rust_bash.Pattern.Ext.{
  Place, at, past, or_try, and_try, unless_try, any_suffix, any_prefix, any_longer, any_of, Matcher,
  Repeater, ext_match_repeat, match_once, match_none, ext_match_group,
}

abbrev pub Ascii : Bytes → Type 0
Ascii = All (λ c. c < 128)

abbrev pub Inside : Place → Type 0
Inside (at s) = Ascii s
Inside past = ⊥

or_try-IsAnswer : (a b : Verdict) → IsAnswer a → IsAnswer b → IsAnswer (or_try a b)
or_try-IsAnswer (answer true) b h k = tt
or_try-IsAnswer (answer false) b h k = k
or_try-IsAnswer panic b h k = h
or_try-IsAnswer out_of_fuel b h k = h

and_try-IsAnswer : (a b : Verdict) → IsAnswer a → IsAnswer b → IsAnswer (and_try a b)
and_try-IsAnswer (answer true) b h k = k
and_try-IsAnswer (answer false) b h k = tt
and_try-IsAnswer panic b h k = h
and_try-IsAnswer out_of_fuel b h k = h

unless_try-IsAnswer : (a b : Verdict) → IsAnswer a → IsAnswer b → IsAnswer (unless_try a b)
unless_try-IsAnswer (answer true) b h k = tt
unless_try-IsAnswer (answer false) b h k = k
unless_try-IsAnswer panic b h k = h
unless_try-IsAnswer out_of_fuel b h k = h

pub any_suffix-IsAnswer :
    (f : Bytes → Verdict) (s : Bytes)
    → ((r : Bytes) → Ascii r → IsAnswer (f r))
    → Ascii s
    → IsAnswer (any_suffix f s)
unfolding any_suffix
any_suffix-IsAnswer f [] h k = h [] k
any_suffix-IsAnswer f (c ∷ s) h k =
    or_try-IsAnswer (f (c ∷ s)) _ (h (c ∷ s) k) (any_suffix-IsAnswer f s h k.1)

any_prefix-IsAnswer :
    (f : Bytes → Bytes → Verdict) (front s : Bytes)
    → ((a b : Bytes) → Ascii a → Ascii b → IsAnswer (f a b))
    → Ascii front
    → Ascii s
    → IsAnswer (any_prefix f front s)
unfolding any_prefix
any_prefix-IsAnswer f front [] h a k = h front [] a k
any_prefix-IsAnswer f front (c ∷ s) h a k =
    or_try-IsAnswer (f front (c ∷ s)) _ (h front (c ∷ s) a k)
      (any_prefix-IsAnswer f (push front c) s h (All-push (λ c. c < 128) front a k.0) k.1)

any_longer-IsAnswer :
    (f : Bytes → Bytes → Verdict) (s : Bytes)
    → ((a b : Bytes) → Ascii a → Ascii b → IsAnswer (f a b))
    → Ascii s
    → IsAnswer (any_longer f s)
any_longer-IsAnswer f [] h k = tt
any_longer-IsAnswer f (c ∷ s) h k = any_prefix-IsAnswer f (c ∷ []) s h (k.0, tt) k.1

any_of-IsAnswer :
    (f : Bytes → Verdict) (alts : List Bytes)
    → ((alt : Bytes) → IsAnswer (f alt))
    → IsAnswer (any_of f alts)
unfolding any_of
any_of-IsAnswer f [] h = tt
any_of-IsAnswer f (a ∷ alts) h = or_try-IsAnswer (f a) _ (h a) (any_of-IsAnswer f alts h)

if-IsAnswer : (b : Bool) (x y : Verdict) → IsAnswer x → IsAnswer y → IsAnswer (if b then x else y)
if-IsAnswer true x y h k = h
if-IsAnswer false x y h k = k

module _ (deeper : Matcher) (again : Repeater)
    (deeper_ok : (p : Bytes) (t : Place) → Inside t → IsAnswer (deeper p t))
    (again_ok : (n : ℕ) (p : Bytes) (alts : List Bytes) (s : Bytes)
      → Ascii s
      → IsAnswer (again n p alts s)) where
  pub ext_match_repeat-IsAnswer :
      (n : ℕ) (after : Bytes) (alts : List Bytes) (s : Bytes)
      → Ascii s
      → IsAnswer (ext_match_repeat deeper again n after alts s)
  unfolding ext_match_repeat
  ext_match_repeat-IsAnswer n after alts s a =
      or_try-IsAnswer (if n == 0 then deeper after (at s) else answer false) _
        (if-IsAnswer (n == 0) _ _ (deeper_ok after (at s) a) tt)
        (any_of-IsAnswer _ alts (λ alt.
          any_longer-IsAnswer (λ x y. and_try (deeper alt (at x)) (again (n - 1) after alts y)) s
            (λ x y ax ay.
              and_try-IsAnswer (deeper alt (at x)) (again (n - 1) after alts y)
                (deeper_ok alt (at x) ax) (again_ok (n - 1) after alts y ay))
            a))

  match_once-IsAnswer :
      (after : Bytes) (alts : List Bytes) (s : Bytes)
      → Ascii s
      → IsAnswer (match_once deeper after alts s)
  unfolding match_once
  match_once-IsAnswer after alts s a = any_of-IsAnswer _ alts (λ alt.
      any_prefix-IsAnswer _ [] s
        (λ x y ax ay.
          and_try-IsAnswer (deeper alt (at x)) _ (deeper_ok alt (at x) ax)
            (deeper_ok after (at y) ay))
        tt a)

  match_none-IsAnswer :
      (after : Bytes) (alts : List Bytes) (s : Bytes)
      → Ascii s
      → IsAnswer (match_none deeper after alts s)
  unfolding match_none
  match_none-IsAnswer after alts s a =
      any_prefix-IsAnswer _ [] s
        (λ x y ax ay.
          unless_try-IsAnswer (any_of (λ alt. deeper alt (at x)) alts) _
            (any_of-IsAnswer _ alts (λ alt. deeper_ok alt (at x) ax)) (deeper_ok after (at y) ay))
        tt a

  pub ext_match_group-IsAnswer :
      (op : ℕ) (after : Bytes) (alts : List Bytes) (t : Place)
      → Inside t
      → IsAnswer (ext_match_group deeper again op after alts t)
  unfolding ext_match_group
  ext_match_group-IsAnswer op after alts past a = absurd a
  ext_match_group-IsAnswer op after alts (at s) a =
      if-IsAnswer (op == b'@') _ _ (match_once-IsAnswer after alts s a) (
        if-IsAnswer (op == b'?') _ _
          (or_try-IsAnswer (deeper after (at s)) _ (deeper_ok after (at s) a)
            (match_once-IsAnswer after alts s a))
          (if-IsAnswer (op == b'+') _ _ (ext_match_repeat-IsAnswer 1 after alts s a) (
            if-IsAnswer (op == b'*') _ _ (ext_match_repeat-IsAnswer 0 after alts s a)
              (if-IsAnswer (op == b'!') _ (answer false) (match_none-IsAnswer after alts s a) tt))))
