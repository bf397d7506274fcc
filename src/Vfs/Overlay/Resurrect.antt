-- ===== src/Vfs/Overlay/Resurrect.antt =====
-- src/vfs/overlay_tree.rs: `ensure_dirs` brings nothing back that was deleted.
use rust_bash.Prelude.{
  ◌≡◌, refl, arith, ℕ, List, [], ◌∷◌, Bool, true, false, ◌||◌, ◌&&◌, Option, none, some, ok,
  if◌then◌else◌,
}
use rust_bash.Prelude.Bytes.{Bytes, beq, beq_iff}
use rust_bash.Vfs.Path.{slash, vfs_join}
use rust_bash.Vfs.Node.{Time}
use rust_bash.Vfs.Overlay.Node.{
  UpperNode, upper_file, upper_dir, upper_symlink, whiteout, UpperChildren, upper_leaf, get_child,
  insert_child,
}
use rust_bash.Vfs.Overlay.Node.Laws.{get_child-insert_child, get_child-insert_same}
use rust_bash.Vfs.Overlay.Tree.{
  Descend, found, missing, blocked, not_dir, beneath, at_last, descend_by, Edited, hide_all,
  names_or, mode_or, ensure_one, ensure_dirs_by, path_segments, descend, ensure_dirs,
}

-- A whiteout above a path hides it as one at the path does.
abbrev pub settle : Descend → Descend
settle blocked = found whiteout
settle (found node) = found node
settle missing = missing
settle not_dir = not_dir

unfoldable pub is_prefix : List Bytes → List Bytes → Bool
is_prefix [] q = true
is_prefix (s ∷ p) [] = false
is_prefix (s ∷ p) (t ∷ q) = beq s t && is_prefix p q

unfoldable pub lists : Bytes → List Bytes → Bool
lists name [] = false
lists name (n ∷ names) = beq name n || lists name names

-- The lower layer lists every segment of a path but the first, under the segments before it.
unfoldable pub Listed : (Bytes → Option (List Bytes)) → Bytes → List Bytes → Type 0
unfolding lists
Listed lower_readdir cur_path [] = Unit
Listed lower_readdir cur_path (seg ∷ []) = Unit
Listed lower_readdir cur_path (seg ∷ s ∷ segs) =
    (lists s (names_or (lower_readdir (vfs_join cur_path seg))) ≡ true)
    × Listed lower_readdir (vfs_join cur_path seg) (s ∷ segs)

get_child-hide_all :
    (j : Bytes) (names : List Bytes) (ch : UpperChildren)
    → get_child j (hide_all names ch) ≡ (if lists j names then some whiteout else get_child j ch)
unfolding hide_all lists
get_child-hide_all j [] ch = refl
get_child-hide_all j (n ∷ names) ch = ground (
  arith,
  get_child-hide_all j names (insert_child n whiteout ch),
  get_child-insert_child j n whiteout ch,
)

-- A name that is not the one of the round keeps its node.
ensure_one-other :
    (j cur_path seg : Bytes) (names : List Bytes) (mode : ℕ) (now : Time)
    (next : UpperChildren → Edited) (ch : UpperChildren) (o : Option UpperNode)
    → beq j seg ≡ false
    → get_child j (ensure_one cur_path seg names mode now next ch o).0 ≡ get_child j ch
ensure_one-other j cur_path seg names mode now next ch none h =
    ground (arith, get_child-insert_child j seg (upper_dir (next upper_leaf).0 mode now) ch)
ensure_one-other j cur_path seg names mode now next ch (some whiteout) h = ground (
  arith,
  get_child-insert_child j seg (upper_dir (next (hide_all names upper_leaf)).0 mode now) ch,
)
ensure_one-other j cur_path seg names mode now next ch (some (upper_dir inner m t)) h =
    ground (arith, get_child-insert_child j seg (upper_dir (next inner).0 m t) ch)
ensure_one-other j cur_path seg names mode now next ch (some (upper_file _ _ _)) h = refl
ensure_one-other j cur_path seg names mode now next ch (some (upper_symlink _ _)) h = refl

-- The node that the round leaves under its own name.
abbrev ensured :
    List Bytes → ℕ → Time → (UpperChildren → Edited) → Option UpperNode → Option UpperNode
ensured names mode now next none = some (upper_dir (next upper_leaf).0 mode now)
ensured names mode now next (some whiteout) =
    some (upper_dir (next (hide_all names upper_leaf)).0 mode now)
ensured names mode now next (some (upper_dir inner m t)) = some (upper_dir (next inner).0 m t)
ensured names mode now next (some (upper_file c m t)) = some (upper_file c m t)
ensured names mode now next (some (upper_symlink l t)) = some (upper_symlink l t)

ensure_one-same :
    (j cur_path seg : Bytes) (names : List Bytes) (mode : ℕ) (now : Time)
    (next : UpperChildren → Edited) (ch : UpperChildren) (o : Option UpperNode)
    → beq j seg ≡ true
    → get_child j ch ≡ o
    → get_child j (ensure_one cur_path seg names mode now next ch o).0
      ≡ ensured names mode now next o
ensure_one-same j cur_path seg names mode now next ch none h e = get_child-insert_same j seg _ ch h
ensure_one-same j cur_path seg names mode now next ch (some whiteout) h e =
    get_child-insert_same j seg _ ch h
ensure_one-same j cur_path seg names mode now next ch (some (upper_dir inner m t)) h e =
    get_child-insert_same j seg _ ch h
ensure_one-same j cur_path seg names mode now next ch (some (upper_file _ _ _)) h e = e
ensure_one-same j cur_path seg names mode now next ch (some (upper_symlink _ _)) h e = e

-- A listed name is hidden in a directory that has just been brought back.
descend_by-hidden :
    (s : Bytes) (segs names : List Bytes)
    → lists s names ≡ true
    → settle (descend_by (s ∷ segs) (hide_all names upper_leaf)) ≡ found whiteout
unfolding descend_by get_child
descend_by-hidden s [] names h = ground (arith, get_child-hide_all s names upper_leaf)
descend_by-hidden s (u ∷ segs) names h = ground (arith, get_child-hide_all s names upper_leaf)

pub descend_by-leaf : (segs : List Bytes) → descend_by segs upper_leaf ≡ missing
unfolding descend_by get_child
descend_by-leaf [] = refl
descend_by-leaf (s ∷ []) = refl
descend_by-leaf (s ∷ u ∷ segs) = refl

-- What is seen behind a name after a round, given that the rest of the loop shows nothing new.
beneath-ensured :
    (s : Bytes) (segs names : List Bytes) (mode : ℕ) (now : Time) (next : UpperChildren → Edited)
    (o : Option UpperNode)
    → lists s names ≡ true
    → ((ch : UpperChildren)
        → settle (descend_by (s ∷ segs) (next ch).0) ≡ settle (descend_by (s ∷ segs) ch))
    → settle (beneath (descend_by (s ∷ segs)) (ensured names mode now next o))
      ≡ settle (beneath (descend_by (s ∷ segs)) o)
beneath-ensured s segs names mode now next none h same =
    rw (same upper_leaf, descend_by-leaf (s ∷ segs)) refl
beneath-ensured s segs names mode now next (some whiteout) h same =
    rw (same (hide_all names upper_leaf), descend_by-hidden s segs names h) refl
beneath-ensured s segs names mode now next (some (upper_dir inner m t)) h same = same inner
beneath-ensured s segs names mode now next (some (upper_file _ _ _)) h same = refl
beneath-ensured s segs names mode now next (some (upper_symlink _ _)) h same = refl

seg_is : (s seg : Bytes) → beq s seg ≡ true → seg ≡ s
seg_is s seg e = ground (arith, beq_iff s seg)

pub same_child :
    (s seg : Bytes) (ch : UpperChildren) → beq s seg ≡ true → get_child s ch ≡ get_child seg ch
same_child s seg ch e = ground (arith, beq_iff s seg)

-- One round, for a path that goes on behind the name `s`.
round_lem :
    (b : Bool) (s u seg cur_path : Bytes) (q names : List Bytes) (mode : ℕ) (now : Time)
    (next : UpperChildren → Edited) (ch : UpperChildren)
    → beq s seg ≡ b
    → (b ≡ true → lists u names ≡ true)
    → (b ≡ true
        → (inner : UpperChildren)
        → settle (descend_by (u ∷ q) (next inner).0) ≡ settle (descend_by (u ∷ q) inner))
    → settle (
        descend_by
          (s ∷ u ∷ q)
          (ensure_one cur_path seg names mode now next ch (get_child seg ch)).0)
      ≡ settle (descend_by (s ∷ u ∷ q) ch)
unfolding descend_by
round_lem false s u seg cur q names mode now next ch e k same =
    rw (ensure_one-other s cur seg names mode now next ch (get_child seg ch) e) refl
round_lem true s u seg cur q names mode now next ch e k same =
    let here = same_child s seg ch e in
    rw (ensure_one-same s cur seg names mode now next ch (get_child seg ch) e here, here)
      (beneath-ensured u q names mode now next (get_child seg ch) (k refl) (same refl))

apart : (b : Bool) → b && true ≡ false → b ≡ false
apart b h = ground arith

pub together : (a b : Bool) → a && b ≡ false → a ≡ true → b ≡ false
together a b h e = ground arith

pub ensure_dirs_by-settle :
    (lower_readdir : Bytes → Option (List Bytes)) (lower_mode : Bytes → Option ℕ) (now : Time)
    (cur_path : Bytes) (p q : List Bytes) (ch : UpperChildren)
    → is_prefix q p ≡ false
    → Listed lower_readdir cur_path q
    → settle (descend_by q (ensure_dirs_by lower_readdir lower_mode now cur_path p ch).0)
      ≡ settle (descend_by q ch)
unfolding ensure_dirs_by descend_by is_prefix Listed
ensure_dirs_by-settle lr lm now cur [] q ch h k = refl
ensure_dirs_by-settle lr lm now cur (seg ∷ p) [] ch h k = refl
ensure_dirs_by-settle lr lm now cur (seg ∷ p) (s ∷ []) ch h k =
    rw
      (ensure_one-other s (vfs_join cur seg) seg (names_or (lr (vfs_join cur seg)))
        (mode_or (lm (vfs_join cur seg))) now (ensure_dirs_by lr lm now (vfs_join cur seg) p) ch
        (get_child seg ch) (apart (beq s seg) h))
      refl
ensure_dirs_by-settle lr lm now cur (seg ∷ p) (s ∷ u ∷ q) ch h (k, ks) =
    round_lem (beq s seg) s u seg (vfs_join cur seg) q (names_or (lr (vfs_join cur seg)))
      (mode_or (lm (vfs_join cur seg))) now (ensure_dirs_by lr lm now (vfs_join cur seg) p) ch refl
      (λ e. rw (seg_is s seg e) k)
      (λ e inner.
        ensure_dirs_by-settle lr lm now (vfs_join cur seg) p (u ∷ q) inner
          (together (beq s seg) (is_prefix (u ∷ q) p) h e) (rw (seg_is s seg e) ks))

-- What a path shows is unchanged where it is not on the path that is made, and the lower layer lists its segments: no
-- deleted entry comes back.
pub ensure_dirs-settle :
    (lower_readdir : Bytes → Option (List Bytes)) (lower_mode : Bytes → Option ℕ) (now : Time)
    (path other : Bytes) (ch : UpperChildren)
    → is_prefix (path_segments other) (path_segments path) ≡ false
    → Listed lower_readdir (slash ∷ []) (path_segments other)
    → settle (descend other (ensure_dirs path lower_readdir lower_mode now ch).0)
      ≡ settle (descend other ch)
unfolding ensure_dirs descend
ensure_dirs-settle lr lm now path other ch =
    ensure_dirs_by-settle lr lm now (slash ∷ []) (path_segments path) (path_segments other) ch

abbrev pub is_dir : Descend → Bool
is_dir (found (upper_dir _ _ _)) = true
is_dir _ = false

-- Where the rest of the loop makes its directory, so does a round that does not fail.
ensured-is_dir :
    (s seg : Bytes) (segs names : List Bytes) (cur_path : Bytes) (mode : ℕ) (now : Time)
    (next : UpperChildren → Edited) (ch : UpperChildren) (o : Option UpperNode)
    → ((inner : UpperChildren)
        → (next inner).1 ≡ ok tt
        → is_dir (descend_by (s ∷ segs) (next inner).0) ≡ true)
    → (ensure_one cur_path seg names mode now next ch o).1 ≡ ok tt
    → is_dir (beneath (descend_by (s ∷ segs)) (ensured names mode now next o)) ≡ true
ensured-is_dir s seg segs names cur mode now next ch none made h = made upper_leaf h
ensured-is_dir s seg segs names cur mode now next ch (some whiteout) made h =
    made (hide_all names upper_leaf) h
ensured-is_dir s seg segs names cur mode now next ch (some (upper_dir inner m t)) made h =
    made inner h
ensured-is_dir s seg segs names cur mode now next ch (some (upper_file _ _ _)) made h = cc
ensured-is_dir s seg segs names cur mode now next ch (some (upper_symlink _ _)) made h = cc

ensured_last-is_dir :
    (seg cur_path : Bytes) (names : List Bytes) (mode : ℕ) (now : Time)
    (next : UpperChildren → Edited) (ch : UpperChildren) (o : Option UpperNode)
    → (ensure_one cur_path seg names mode now next ch o).1 ≡ ok tt
    → is_dir (at_last (ensured names mode now next o)) ≡ true
ensured_last-is_dir seg cur names mode now next ch none h = refl
ensured_last-is_dir seg cur names mode now next ch (some whiteout) h = refl
ensured_last-is_dir seg cur names mode now next ch (some (upper_dir inner m t)) h = refl
ensured_last-is_dir seg cur names mode now next ch (some (upper_file _ _ _)) h = cc
ensured_last-is_dir seg cur names mode now next ch (some (upper_symlink _ _)) h = cc

pub ensure_dirs_by-is_dir :
    (lower_readdir : Bytes → Option (List Bytes)) (lower_mode : Bytes → Option ℕ) (now : Time)
    (cur_path seg : Bytes) (segs : List Bytes) (ch : UpperChildren)
    → (ensure_dirs_by lower_readdir lower_mode now cur_path (seg ∷ segs) ch).1 ≡ ok tt
    → is_dir (
        descend_by
          (seg ∷ segs)
          (ensure_dirs_by lower_readdir lower_mode now cur_path (seg ∷ segs) ch).0)
      ≡ true
unfolding ensure_dirs_by descend_by
ensure_dirs_by-is_dir lr lm now cur seg [] ch h =
    rw
      (ensure_one-same seg (vfs_join cur seg) seg (names_or (lr (vfs_join cur seg)))
        (mode_or (lm (vfs_join cur seg))) now (ensure_dirs_by lr lm now (vfs_join cur seg) []) ch
        (get_child seg ch) ((beq_iff seg seg).1 refl) refl)
      (ensured_last-is_dir seg (vfs_join cur seg) (names_or (lr (vfs_join cur seg)))
        (mode_or (lm (vfs_join cur seg))) now (ensure_dirs_by lr lm now (vfs_join cur seg) []) ch
        (get_child seg ch) h)
ensure_dirs_by-is_dir lr lm now cur seg (s ∷ segs) ch h =
    rw
      (ensure_one-same seg (vfs_join cur seg) seg (names_or (lr (vfs_join cur seg)))
        (mode_or (lm (vfs_join cur seg))) now
        (ensure_dirs_by lr lm now (vfs_join cur seg) (s ∷ segs)) ch (get_child seg ch)
        ((beq_iff seg seg).1 refl) refl)
      (ensured-is_dir s seg segs (names_or (lr (vfs_join cur seg))) (vfs_join cur seg)
        (mode_or (lm (vfs_join cur seg))) now
        (ensure_dirs_by lr lm now (vfs_join cur seg) (s ∷ segs)) ch (get_child seg ch)
        (ensure_dirs_by-is_dir lr lm now (vfs_join cur seg) s segs) h)
