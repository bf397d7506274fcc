-- ===== src/Vfs/Path/Names.antt =====
-- Normalised paths of src/vfs/mod.rs as lists of component names.
use rust_bash.Prelude.{
  ◌≡◌, ◌≢◌, refl, sym, List, [], ◌∷◌, ◌++◌, All, All-push, All-pop, Bool-cases, inl, inr, arith,
  ◌∙◌, append_assoc, append-nil, push,
}
use rust_bash.Prelude.Bytes.{Bytes, beq, beq_iff}
use rust_bash.Vfs.Path.{
  slash, dot, dotdot, split, join, segment, segments, non_empty, trim_start, components,
}
use rust_bash.Vfs.Path.Split.{NoSlash, split-join, split-NoSlash}

-- What one component of a normalised path looks like.
pub record IsName (w : Bytes) : Type 0 where
  pub inhabited : w ≢ []
  pub not_dot : w ≢ dot
  pub not_dotdot : w ≢ dotdot
  pub no_slash : NoSlash w

-- The absolute path with these components.
abbrev pub render : List Bytes → Bytes
render ws = slash ∷ join ws

abbrev pub Names : List Bytes → Type 0
Names = All IsName

pub segment-Names :
    (ps : List Bytes) (seg : Bytes) → Names ps → NoSlash seg → Names (segment ps seg)
unfolding segment
segment-Names ps seg h n = elim (Bool-cases (beq seg [])) [
  | inl e ↦ rw e h
  | inr e ↦ elim (Bool-cases (beq seg dot)) [
    | inl d ↦ rw (e, d) h
    | inr d ↦ elim (Bool-cases (beq seg dotdot)) [
      | inl t ↦ rw (e, d, t) (All-pop IsName ps h)
      | inr t ↦
          rw (e, d, t)
            (All-push IsName ps h (record {
              inhabited = λ p. ground (arith, beq_iff seg []);
              not_dot = λ p. ground (arith, beq_iff seg dot);
              not_dotdot = λ p. ground (arith, beq_iff seg dotdot);
              no_slash = n;
            }))
    ]
  ]
]

pub segments-Names : (ps segs : List Bytes) → Names ps → All NoSlash segs → Names (segments ps segs)
unfolding segments
segments-Names ps [] h n = h
segments-Names ps (seg ∷ segs) h (n, ns) =
    segments-Names (segment ps seg) segs (segment-Names ps seg h n) ns

pub segment_name : (ps : List Bytes) (w : Bytes) → IsName w → segment ps w ≡ push ps w
unfolding segment
segment_name ps w h =
    ground
      (arith, beq_iff w [], beq_iff w dot, beq_iff w dotdot, h.inhabited, h.not_dot, h.not_dotdot)

pub segments_valid : (ps ws : List Bytes) → Names ws → segments ps ws ≡ ps ++ ws
unfolding segments
segments_valid ps [] h = sym (append-nil ps)
segments_valid ps (w ∷ ws) (h, hs) =
    rw (segment_name ps w h) (segments_valid (push ps w) ws hs ∙ append_assoc ps (w ∷ []) ws)

pub segments-append :
    (ps xs ys : List Bytes) → segments ps (xs ++ ys) ≡ segments (segments ps xs) ys
unfolding segments
segments-append ps [] ys = refl
segments-append ps (x ∷ xs) ys = segments-append (segment ps x) xs ys

pub Names-NoSlash : (ws : List Bytes) → Names ws → All NoSlash ws
Names-NoSlash [] h = tt
Names-NoSlash (w ∷ ws) (h, hs) = (h.no_slash, Names-NoSlash ws hs)

-- The empty path of the root splits into one empty segment, which is skipped.
pub segments-render : (ws : List Bytes) → Names ws → segments [] (split (render ws)) ≡ ws
unfolding segments segment split join beq
segments-render [] h = refl
segments-render (w ∷ ws) h =
    rw (split-join w ws (Names-NoSlash (w ∷ ws) h)) (segments_valid [] (w ∷ ws) h)

pub non_empty-Names : (ws : List Bytes) → Names ws → non_empty ws ≡ ws
unfolding non_empty
non_empty-Names [] h = refl
non_empty-Names ([] ∷ ws) (h, hs) = absurd (h.inhabited refl)
non_empty-Names ((c ∷ w) ∷ ws) (h, hs) = rw (non_empty-Names ws hs)

trim_start-join :
    (w : Bytes) (ws : List Bytes) → IsName w → trim_start (join (w ∷ ws)) ≡ join (w ∷ ws)
unfolding trim_start join
trim_start-join [] ws h = absurd (h.inhabited refl)
trim_start-join (c ∷ w) [] h = ground (arith, h.no_slash.0)
trim_start-join (c ∷ w) (v ∷ ws) h = ground (arith, h.no_slash.0)

pub components-render : (ws : List Bytes) → Names ws → components (render ws) ≡ ws
unfolding components join
components-render [] h = refl
components-render (w ∷ ws) (h, hs) =
    rw (trim_start-join w ws h, split-join w ws (Names-NoSlash (w ∷ ws) (h, hs)))
      (non_empty-Names (w ∷ ws) (h, hs))

pub split-Names : (s : Bytes) → Names (segments [] (split s))
split-Names s = segments-Names [] (split s) tt (split-NoSlash s)
