-- ===== src/Brace/Slices.antt =====
-- src/interpreter/brace.rs: the slices that the scanners cut.
use rust_bash.Prelude.{
  ◌≡◌, refl, ap, ◌∙◌, ℕ, zero, suc, List, [], ◌∷◌, ◌++◌, ◌&&◌, Option, none, some, ◌==◌, arith, inl,
  inr, ◌≢◌, Bool-cases,
}
use rust_bash.Prelude.Bytes.{Bytes}
use rust_bash.Brace.Scan.{
  special, also, jump, is_plain, nesting, before, at_brace, Pair, find_matching_close,
  find_brace_pair, split_alternatives,
}
use rust_bash.Vfs.Path.{cons_head}

-- A body and a suffix that a closing brace stands between in the text.
abbrev pub Closes : Bytes → Option (Bytes × Bytes) → Type 0
Closes p none = Unit
Closes p (some (body, suffix)) = p ≡ body ++ b'}' ∷ suffix

also-Closes :
    (c : ℕ) (p : Bytes) (o : Option (Bytes × Bytes)) → Closes p o → Closes (c ∷ p) (also c o)
also-Closes c p none h = tt
also-Closes c p (some (body, suffix)) h = ap (λ q. c ∷ q) h

find_matching_close-Closes :
    (skip depth : ℕ) (p : Bytes) → Closes p (find_matching_close skip depth p)
unfolding find_matching_close
find_matching_close-Closes skip depth [] = tt
find_matching_close-Closes (suc skip) depth (c ∷ p) =
    also-Closes c p _ (find_matching_close-Closes skip depth p)
find_matching_close-Closes zero depth (c ∷ p) =
    let ih = find_matching_close-Closes (jump (special c p)) (nesting (special c p) depth c) p in
    elim (Bool-cases (is_plain (special c p) && c == b'}' && depth == 0)) [
      | inl e ↦ rw (e, Closes) (ground arith)
      | inr e ↦ rw (e, Closes) (also-Closes c p _ ih)
    ]

-- A prefix, a body and a suffix with a pair of braces between them in the text.
abbrev pub Splits : Bytes → Option Pair → Type 0
Splits p none = Unit
Splits p (some (prefix, body, suffix)) = p ≡ prefix ++ b'{' ∷ body ++ b'}' ∷ suffix

before-Splits : (c : ℕ) (p : Bytes) (o : Option Pair) → Splits p o → Splits (c ∷ p) (before c o)
before-Splits c p none h = tt
before-Splits c p (some (prefix, body, suffix)) h = ap (λ q. c ∷ q) h

at_brace-Splits :
    (c : ℕ) (p : Bytes) (o : Option (Bytes × Bytes)) (later : Option Pair)
    → c ≡ b'{'
    → Closes p o
    → Splits (c ∷ p) (before c later)
    → Splits (c ∷ p) (at_brace o later)
at_brace-Splits c p none later e h k = rw⁻¹ e k
at_brace-Splits c p (some (body, suffix)) later e h k = ground (arith, h)

-- `find_brace_pair` cuts the text at a brace that opens and one that closes: what it returns, with the two
-- braces put back, is the text.
pub find_brace_pair-Splits : (skip : ℕ) (p : Bytes) → Splits p (find_brace_pair skip p)
unfolding find_brace_pair
find_brace_pair-Splits skip [] = tt
find_brace_pair-Splits (suc skip) (c ∷ p) = before-Splits c p _ (find_brace_pair-Splits skip p)
find_brace_pair-Splits zero (c ∷ p) =
    let later = find_brace_pair-Splits (jump (special c p)) p in
    elim (Bool-cases (is_plain (special c p) && c == b'{')) [
      | inl e ↦
          rw (e, Splits)
            (at_brace-Splits c p _ _ (ground arith) (find_matching_close-Closes 0 0 p)
              (before-Splits c p _ later))
      | inr e ↦ rw (e, Splits) (before-Splits c p _ later)
    ]

-- The alternatives with the commas put back.
abbrev pub commas : List Bytes → Bytes
commas [] = []
commas (x ∷ []) = x
commas (x ∷ y ∷ xs) = x ++ b',' ∷ commas (y ∷ xs)

commas-cons_head : (c : ℕ) (ws : List Bytes) → ws ≢ [] → commas (cons_head c ws) ≡ c ∷ commas ws
commas-cons_head c [] h = absurd (h refl)
commas-cons_head c (w ∷ []) h = refl
commas-cons_head c (w ∷ v ∷ ws) h = refl

cons_head-some : (c : ℕ) (ws : List Bytes) → cons_head c ws ≢ []
cons_head-some c [] = λ e. cc
cons_head-some c (w ∷ ws) = λ e. cc

pub split_alternatives-some : (skip depth : ℕ) (p : Bytes) → split_alternatives skip depth p ≢ []
unfolding split_alternatives
split_alternatives-some skip depth [] = λ e. cc
split_alternatives-some (suc skip) depth (c ∷ p) = cons_head-some c _
split_alternatives-some zero depth (c ∷ p) =
    elim (Bool-cases (is_plain (special c p) && c == b',' && depth == 0)) [
      | inl e ↦ rw e (λ h. cc)
      | inr e ↦ rw e (cons_head-some c _)
    ]

commas-nil : (c : ℕ) (ws : List Bytes) → ws ≢ [] → commas ([] ∷ ws) ≡ b',' ∷ commas ws
commas-nil c [] h = absurd (h refl)
commas-nil c (w ∷ ws) h = refl

-- `split_alternatives` loses nothing of the body and adds nothing: its parts with commas between them are
-- the body.
pub commas-split_alternatives :
    (skip depth : ℕ) (p : Bytes) → commas (split_alternatives skip depth p) ≡ p
unfolding split_alternatives
commas-split_alternatives skip depth [] = refl
commas-split_alternatives (suc skip) depth (c ∷ p) =
    commas-cons_head c _ (split_alternatives-some skip depth p)
    ∙ ap (λ q. c ∷ q) (commas-split_alternatives skip depth p)
commas-split_alternatives zero depth (c ∷ p) =
    let j = jump (special c p) in
    let d = nesting (special c p) depth c in
    let ih = commas-split_alternatives j d p in
    let some = split_alternatives-some j d p in
    elim (Bool-cases (is_plain (special c p) && c == b',' && depth == 0)) [
      | inl e ↦ rw e (commas-nil c _ some ∙ ground (arith, ih))
      | inr e ↦ rw e (commas-cons_head c _ some ∙ ap (λ q. c ∷ q) ih)
    ]
