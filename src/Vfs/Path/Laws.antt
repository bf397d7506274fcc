-- ===== src/Vfs/Path/Laws.antt =====
-- What the path functions of src/vfs/mod.rs promise.
use rust_bash.Prelude.{
  ◌≡◌, ◌≢◌, refl, sym, ℕ, List, [], ◌∷◌, ◌++◌, if◌then◌else◌, Bool, true, false, Bool-cases, inl,
  inr, arith, ◌∙◌, append_assoc, push, ok, err, ap, last?,
}
use rust_bash.Prelude.Bytes.{Bytes, codes, beq}
use rust_bash.Vfs.Path.{
  slash, invalid_path, starts_with, ends_with, with_slash, is_empty, vfs_path_is_absolute, vfs_join,
  vfs_append, append_trimmed, trim_start, vfs_resolve, vfs_normalize, vfs_normalize_checked, split,
  join, segment, segments, components, lossy_segment, lossy_segments,
}
use rust_bash.Vfs.Path.Split.{NoSlash, split-NoSlash, split-append, split-join, join-push}
use rust_bash.Vfs.Path.Names.{
  IsName, Names, render, segments-Names, segments-render, segments-append, components-render,
  segments_valid, Names-NoSlash, split-Names,
}

-- The two loops do the same at every segment.
lossy_segment-segment :
    (parts : List Bytes) (seg : Bytes) → lossy_segment parts seg ≡ segment parts seg
unfolding lossy_segment segment
lossy_segment-segment [] seg = ground arith
lossy_segment-segment (x ∷ parts) seg = ground arith

lossy_segments-segments :
    (parts segs : List Bytes) → lossy_segments parts segs ≡ segments parts segs
unfolding lossy_segments segments
lossy_segments-segments parts [] = refl
lossy_segments-segments parts (seg ∷ segs) =
    rw (lossy_segment-segment parts seg) (lossy_segments-segments (segment parts seg) segs)

vfs_normalize-absolute :
    (p : Bytes) → vfs_path_is_absolute p ≡ true → vfs_normalize p ≡ render (segments [] (split p))
unfolding vfs_normalize vfs_path_is_absolute
vfs_normalize-absolute p h = rw (lossy_segments-segments [] (split p), h) refl

vfs_normalize-relative :
    (p : Bytes) → vfs_path_is_absolute p ≡ false → vfs_normalize p ≡ join (segments [] (split p))
unfolding vfs_normalize vfs_path_is_absolute
vfs_normalize-relative p h = rw (lossy_segments-segments [] (split p), h) refl

-- The components of a relative path are read back from their text.
segments-join : (ws : List Bytes) → Names ws → segments [] (split (join ws)) ≡ ws
unfolding join split segments segment beq
segments-join [] h = refl
segments-join (w ∷ ws) h =
    rw (split-join w ws (Names-NoSlash (w ∷ ws) h)) (segments_valid [] (w ∷ ws) h)

starts_with-join : (ws : List Bytes) → Names ws → vfs_path_is_absolute (join ws) ≡ false
unfolding join vfs_path_is_absolute
starts_with-join [] h = refl
starts_with-join ([] ∷ ws) (h, _) = absurd (h.inhabited refl)
starts_with-join ((c ∷ w) ∷ []) (h, _) = ground (arith, h.no_slash.0)
starts_with-join ((c ∷ w) ∷ v ∷ ws) (h, _) = ground (arith, h.no_slash.0)

checked_lem :
    (p : Bytes)
    → vfs_normalize_checked p ≡ (
        if vfs_path_is_absolute p
        then ok (render (segments [] (split p)))
        else err (
            invalid_path
              (if is_empty p then codes "empty path" else codes "path must be absolute: " ++ p)))
unfolding vfs_normalize_checked
checked_lem [] = refl
checked_lem (c ∷ p) = ground arith

if_same :
    {A : Type 0} (b : Bool) (x y z : A)
    → (b ≡ true → x ≡ y)
    → (if b then x else z) ≡ (if b then y else z)
if_same true x y z h = h refl
if_same false x y z h = refl

render-absolute : (ws : List Bytes) → vfs_path_is_absolute (render ws) ≡ true
unfolding vfs_path_is_absolute
render-absolute ws = refl

vfs_normalize_idem :
    (b : Bool) (p : Bytes)
    → vfs_path_is_absolute p ≡ b
    → (vfs_normalize (vfs_normalize p) ≡ vfs_normalize p)
      × (vfs_path_is_absolute (vfs_normalize p) ≡ b)
vfs_normalize_idem true p h =
    let ws = segments [] (split p) in
    let e = vfs_normalize-absolute p h in
    rw e (
      vfs_normalize-absolute (render ws) (render-absolute ws)
          ∙ ap render (segments-render ws (split-Names p)),
      render-absolute ws,
    )
vfs_normalize_idem false p h =
    let ws = segments [] (split p) in
    let e = vfs_normalize-relative p h in
    let r = starts_with-join ws (split-Names p) in
    rw e (vfs_normalize-relative (join ws) r ∙ ap join (segments-join ws (split-Names p)), r)

-- The loop of `vfs_normalize` and that of `vfs_normalize_checked` give one path where the path is absolute; on other paths
-- the checked one fails, with the message for an empty path or for a relative one. What `vfs_normalize` gives is
-- normalised already, and absolute just where the path is.
pub vfs_normalize-vfs_normalize_checked :
    (p : Bytes)
    → (vfs_normalize_checked p ≡ (
        if vfs_path_is_absolute p
        then ok (vfs_normalize p)
        else err (
            invalid_path
              (if is_empty p then codes "empty path" else codes "path must be absolute: " ++ p))))
      × (vfs_normalize (vfs_normalize p) ≡ vfs_normalize p)
      × (vfs_path_is_absolute (vfs_normalize p) ≡ vfs_path_is_absolute p)
vfs_normalize-vfs_normalize_checked p =
    let idem = vfs_normalize_idem (vfs_path_is_absolute p) p refl in
    (
      checked_lem p
          ∙ if_same (vfs_path_is_absolute p) _ _ _ (λ h. ap ok (sym (vfs_normalize-absolute p h))),
      idem.0,
      idem.1,
    )

normalized_parts :
    (p : Bytes) {q : Bytes} → vfs_normalize_checked p ≡ ok q → q ≡ render (segments [] (split p))
unfolding vfs_normalize_checked
normalized_parts p h = ground arith

-- A normalised path is `/` and its components joined by `/`, where no component is empty, `.` or
-- `..`, and none holds a `/`.
pub vfs_normalize_checked-components :
    (p : Bytes) {q : Bytes}
    → vfs_normalize_checked p ≡ ok q
    → Names (components q) × (q ≡ slash ∷ join (components q))
vfs_normalize_checked-components p h =
    let e = normalized_parts p h in
    rw (e, components-render _ (split-Names p)) (split-Names p, refl)

pub vfs_normalize_checked-render :
    (ws : List Bytes) → Names ws → vfs_normalize_checked (render ws) ≡ ok (render ws)
unfolding vfs_normalize_checked
vfs_normalize_checked-render ws h = rw (segments-render ws h)

-- Normalising a normalised path again succeeds and changes nothing.
pub vfs_normalize_checked_idem :
    (p : Bytes) {q : Bytes} → vfs_normalize_checked p ≡ ok q → vfs_normalize_checked q ≡ ok q
vfs_normalize_checked_idem p h =
    rw (normalized_parts p h) (vfs_normalize_checked-render _ (split-Names p))

last?-append : (s : Bytes) (c : ℕ) (t : Bytes) → last? (s ++ c ∷ t) ≡ last? (c ∷ t)
last?-append [] c t = refl
last?-append (x ∷ []) c t = refl
last?-append (x ∷ y ∷ s) c t = last?-append (y ∷ s) c t

-- A component does not end in a separator, so a joined path gets one more.
ends_with-NoSlash : (c : ℕ) (w : Bytes) → NoSlash (c ∷ w) → ends_with slash (c ∷ w) ≡ false
ends_with-NoSlash c [] (h, _) = ground arith
ends_with-NoSlash c (d ∷ w) (_, h) = ends_with-NoSlash d w h

ends_with-render :
    (w : Bytes) (ws : List Bytes) → Names (w ∷ ws) → ends_with slash (render (w ∷ ws)) ≡ false
unfolding join
ends_with-render [] ws (h, _) = absurd (h.inhabited refl)
ends_with-render (c ∷ w) [] (h, _) = ends_with-NoSlash c w h.no_slash
ends_with-render (c ∷ w) (v ∷ ws) (h, hs) =
    rw (last?-append (slash ∷ c ∷ w) slash (join (v ∷ ws))) (ends_with-render v ws hs)

-- Joining a name to a normalised path appends one component, and the result is normalised.
pub vfs_join-render :
    (ws : List Bytes) (w : Bytes)
    → Names ws
    → IsName w
    → vfs_join (render ws) w ≡ render (push ws w)
unfolding vfs_join join
vfs_join-render [] w h n = refl
vfs_join-render (v ∷ ws) w h n =
    rw (ends_with-render v ws h, join-push v ws w)
      (ap (λ t. slash ∷ t) (append_assoc (join (v ∷ ws)) (slash ∷ []) w))

ends_with→push : (s : Bytes) → ends_with slash s ≡ true → (r : Bytes) × (s ≡ push r slash)
ends_with→push [] h = ground arith
ends_with→push (c ∷ []) h = ([], ground arith)
ends_with→push (c ∷ d ∷ s) h = let (r, e) = ends_with→push (d ∷ s) h in (c ∷ r, ap (λ t. c ∷ t) e)

-- A trailing separator adds an empty segment, which changes nothing.
segments-with_slash :
    (ps : List Bytes) (s t : Bytes)
    → segments ps (split (with_slash s ++ t)) ≡ segments (segments ps (split s)) (split t)
segments-with_slash ps s t = elim (Bool-cases (ends_with slash s)) [
  | inl e ↦ rw e (
      let (r, p) = ends_with→push s e in
      rw (p, append_assoc r (slash ∷ []) t, split-append r t, split-append r [])
        (rw (segments-append, segments-append) (unfold segments segment split beq in refl)))
  | inr e ↦
      rw (e, append_assoc s (slash ∷ []) t, split-append s t)
        (segments-append ps (split s) (split t))
]

starts_with-with_slash :
    (x : ℕ) (a b : Bytes)
    → starts_with slash (x ∷ a) ≡ false
    → starts_with slash (with_slash (x ∷ a) ++ b) ≡ false
starts_with-with_slash x a b h = elim (Bool-cases (ends_with slash (x ∷ a))) [
  | inl e ↦ rw e h
  | inr e ↦ rw e h
]

-- The joined text starts with the separator of the directory, so it is absolute.
normalize-with_slash :
    (ws : List Bytes) (p : Bytes)
    → vfs_normalize_checked (with_slash (render ws) ++ p)
      ≡ ok (render (segments [] (split (with_slash (render ws) ++ p))))
unfolding vfs_normalize_checked
normalize-with_slash ws p = elim (Bool-cases (ends_with slash (render ws))) [
  | inl e ↦ rw e
  | inr e ↦ rw e
]

-- A relative path, resolved against a normalised directory: its segments go on from the directory's
-- components.
pub vfs_resolve-segments :
    (ws : List Bytes) (p : Bytes)
    → Names ws
    → starts_with slash p ≡ false
    → vfs_normalize_checked (vfs_resolve (render ws) p) ≡ ok (render (segments ws (split p)))
unfolding vfs_resolve
vfs_resolve-segments ws p h r =
    rw (r, normalize-with_slash ws p)
      (rw (segments-with_slash [] (render ws) p, segments-render ws h) refl)

trim_start_relative : (b : Bytes) → starts_with slash b ≡ false → trim_start b ≡ b
unfolding trim_start
trim_start_relative [] h = refl
trim_start_relative (c ∷ b) h = rw h

segments-empty : (ps : List Bytes) → segments ps (split []) ≡ ps
unfolding segments segment split beq
segments-empty ps = refl

vfs_append-relative :
    (ws : List Bytes) (a b : Bytes)
    → starts_with slash a ≡ false
    → a ≢ []
    → starts_with slash b ≡ false
    → (starts_with slash (vfs_append a b) ≡ false)
      × (segments ws (split (vfs_append a b)) ≡ segments (segments ws (split a)) (split b))
unfolding vfs_append
vfs_append-relative ws [] b ra na rb = absurd (na refl)
vfs_append-relative ws (x ∷ a) b ra na rb = rw (trim_start_relative b rb) (go b)
  where
    go :
        (b : Bytes)
        → (starts_with slash (append_trimmed (x ∷ a) b) ≡ false)
          × (segments ws (split (append_trimmed (x ∷ a) b))
              ≡ segments (segments ws (split (x ∷ a))) (split b))
    go [] = (ra, sym (segments-empty _))
    go (c ∷ b) = (starts_with-with_slash x a (c ∷ b) ra, segments-with_slash ws (x ∷ a) (c ∷ b))

-- Resolving `a` and then `b` against the result is resolving `a/b`: a `cd` in steps ends where one
-- `cd` would, `..` included, for relative `a` and `b` with `a` not empty.
pub vfs_resolve-vfs_append :
    (ws : List Bytes) (a b : Bytes) {q : Bytes}
    → Names ws
    → starts_with slash a ≡ false
    → a ≢ []
    → starts_with slash b ≡ false
    → vfs_normalize_checked (vfs_resolve (render ws) a) ≡ ok q
    → vfs_normalize_checked (vfs_resolve q b)
      ≡ vfs_normalize_checked (vfs_resolve (render ws) (vfs_append a b))
vfs_resolve-vfs_append ws a b {q} h ra na rb e =
    let e' : q ≡ render (segments ws (split a)) = cc (e, vfs_resolve-segments ws a h ra) in
    let (rab, same) = vfs_append-relative ws a b ra na rb in
    rw e' (
      vfs_resolve-segments (segments ws (split a)) b
        (segments-Names ws (split a) h (split-NoSlash a)) rb
      ∙ rw (vfs_resolve-segments ws (vfs_append a b) h rab, same))
