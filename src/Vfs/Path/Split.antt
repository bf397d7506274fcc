-- ===== src/Vfs/Path/Split.antt =====
-- Splitting at `/` and joining again, for the path functions of src/vfs/mod.rs.
use rust_bash.Prelude.{
  ◌≡◌, ◌≢◌, refl, ℕ, List, [], ◌∷◌, ◌++◌, ◌==◌, All, Bool-cases, inl, inr, arith, sym, ◌∙◌,
  append_assoc,
}
use rust_bash.Prelude.Bytes.{Bytes}
use rust_bash.Vfs.Path.{slash, split, join, cons_head}

-- No separator inside.
abbrev pub NoSlash : Bytes → Type 0
NoSlash w = All (λ c. c ≢ slash) w

cons_head-append :
    (c : ℕ) (ws vs : List Bytes) → ws ≢ [] → cons_head c ws ++ vs ≡ cons_head c (ws ++ vs)
cons_head-append c [] vs h = absurd (h refl)
cons_head-append c (w ∷ ws) vs h = refl

cons_head-ne-nil : (c : ℕ) (ws : List Bytes) → cons_head c ws ≢ []
cons_head-ne-nil c [] h = cc
cons_head-ne-nil c (w ∷ ws) h = cc

split-ne-nil : (s : Bytes) → split s ≢ []
unfolding split
split-ne-nil [] h = cc
split-ne-nil (c ∷ s) h = ground (arith, cons_head-ne-nil c (split s))

-- A separator between two texts splits them apart.
pub split-append : (s t : Bytes) → split (s ++ slash ∷ t) ≡ split s ++ split t
unfolding split
split-append [] t = refl
split-append (c ∷ s) t =
    ground (arith, split-append s t, cons_head-append c (split s) (split t) (split-ne-nil s))

pub split_whole : (w : Bytes) → NoSlash w → split w ≡ w ∷ []
unfolding split
split_whole [] h = refl
split_whole (c ∷ w) (h, hs) = ground (arith, split_whole w hs, h)

pub split-join :
    (w : Bytes) (ws : List Bytes) → All NoSlash (w ∷ ws) → split (join (w ∷ ws)) ≡ w ∷ ws
unfolding join
split-join w [] (h, _) = split_whole w h
split-join w (v ∷ ws) (h, hs) =
    split-append w (join (v ∷ ws)) ∙ rw (split_whole w h, split-join v ws hs)

cons_head-NoSlash :
    (c : ℕ) (ws : List Bytes) → c ≢ slash → All NoSlash ws → All NoSlash (cons_head c ws)
cons_head-NoSlash c [] n h = ((n, tt), tt)
cons_head-NoSlash c (w ∷ ws) n (h, hs) = ((n, h), hs)

split-cons_NoSlash : (c : ℕ) (s : Bytes) → All NoSlash (split s) → All NoSlash (split (c ∷ s))
unfolding split
split-cons_NoSlash c s h = elim (Bool-cases (c == slash)) [
  | inl e ↦ rw e (tt, h)
  | inr e ↦ rw e (cons_head-NoSlash c (split s) (ground arith) h)
]

pub split-NoSlash : (s : Bytes) → All NoSlash (split s)
unfolding split
split-NoSlash [] = (tt, tt)
split-NoSlash (c ∷ s) = split-cons_NoSlash c s (split-NoSlash s)

pub join-push :
    (w : Bytes) (ws : List Bytes) (v : Bytes)
    → join ((w ∷ ws) ++ v ∷ []) ≡ join (w ∷ ws) ++ slash ∷ v
unfolding join
join-push w [] v = refl
join-push w (u ∷ ws) v = rw (join-push u ws v) (sym (append_assoc w _ _))
