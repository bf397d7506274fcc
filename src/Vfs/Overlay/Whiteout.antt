-- ===== src/Vfs/Overlay/Whiteout.antt =====
-- src/vfs/overlay_tree.rs: `put_whiteout`. Nothing is seen at the path or below it afterwards, and nothing changes apart
-- from it.
use rust_bash.Prelude.{
  ◌≡◌, ◌≢◌, refl, arith, ℕ, List, [], ◌∷◌, Bool, true, false, ◌&&◌, Option, none, some,
}
use rust_bash.Prelude.Bytes.{Bytes, beq}
use rust_bash.Vfs.Path.{slash, vfs_join}
use rust_bash.Vfs.Node.{Time}
use rust_bash.Vfs.Overlay.Node.{
  UpperNode, upper_file, upper_dir, upper_symlink, whiteout, UpperChildren, upper_leaf, get_child,
  insert_child,
}
use rust_bash.Vfs.Overlay.Node.Laws.{get_child-insert_child, get_child-insert_same}
use rust_bash.Vfs.Overlay.Tree.{
  Descend, found, missing, blocked, not_dir, descend_by, descend, beneath, path_segments, scaffold,
  put_whiteout_by, put_whiteout, mode_or, detach, remove_name,
}
use rust_bash.Vfs.Overlay.Tree.Listing.{
  append_file, appended, set_mode, mode_changed, set_mtime, mtime_changed, with_node_mut,
}
use rust_bash.Vfs.Overlay.Resurrect.{is_prefix, descend_by-leaf, same_child, together}
use rust_bash.Vfs.Overlay.Frame.{
  Apart, descend_by-child, beq_sym, other_name, with_parent_children-Apart,
}
use rust_bash.Vfs.Overlay.Attach.{with_node_mut_by-Apart, remove_name-KeepsOthers}
use rust_bash.Vfs.Overlay.InPlace.{as_not_found-keeps}

-- Neither content nor a way to the lower layer.
abbrev pub is_invisible : Descend → Bool
is_invisible blocked = true
is_invisible not_dir = true
is_invisible (found whiteout) = true
is_invisible (found (upper_file _ _ _)) = false
is_invisible (found (upper_dir _ _ _)) = false
is_invisible (found (upper_symlink _ _)) = false
is_invisible missing = false

-- The node that the scaffold leaves under its name.
abbrev pub scaffolded :
    ℕ → Time → (UpperChildren → UpperChildren) → Option UpperNode → Option UpperNode
scaffolded mode now next none = some (upper_dir (next upper_leaf) mode now)
scaffolded mode now next (some (upper_dir inner m t)) = some (upper_dir (next inner) m t)
scaffolded mode now next (some whiteout) = some whiteout
scaffolded mode now next (some (upper_file c m t)) = some (upper_file c m t)
scaffolded mode now next (some (upper_symlink l t)) = some (upper_symlink l t)

pub scaffold-same :
    (j seg : Bytes) (mode : ℕ) (now : Time) (next : UpperChildren → UpperChildren)
    (ch : UpperChildren) (o : Option UpperNode)
    → beq j seg ≡ true
    → get_child j ch ≡ o
    → get_child j (scaffold seg mode now next ch o) ≡ scaffolded mode now next o
scaffold-same j seg mode now next ch none h e = get_child-insert_same j seg _ ch h
scaffold-same j seg mode now next ch (some (upper_dir inner m t)) h e =
    get_child-insert_same j seg _ ch h
scaffold-same j seg mode now next ch (some whiteout) h e = e
scaffold-same j seg mode now next ch (some (upper_file _ _ _)) h e = e
scaffold-same j seg mode now next ch (some (upper_symlink _ _)) h e = e

scaffold-other :
    (j seg : Bytes) (mode : ℕ) (now : Time) (next : UpperChildren → UpperChildren)
    (ch : UpperChildren) (o : Option UpperNode)
    → beq j seg ≡ false
    → get_child j (scaffold seg mode now next ch o) ≡ get_child j ch
scaffold-other j seg mode now next ch none h =
    ground (arith, get_child-insert_child j seg (upper_dir (next upper_leaf) mode now) ch)
scaffold-other j seg mode now next ch (some (upper_dir inner m t)) h =
    ground (arith, get_child-insert_child j seg (upper_dir (next inner) m t) ch)
scaffold-other j seg mode now next ch (some whiteout) h = refl
scaffold-other j seg mode now next ch (some (upper_file _ _ _)) h = refl
scaffold-other j seg mode now next ch (some (upper_symlink _ _)) h = refl

beneath-invisible :
    (q : List Bytes) (mode : ℕ) (now : Time) (next : UpperChildren → UpperChildren)
    (o : Option UpperNode)
    → ((inner : UpperChildren) → is_invisible (descend_by q (next inner)) ≡ true)
    → is_invisible (beneath (descend_by q) (scaffolded mode now next o)) ≡ true
beneath-invisible q mode now next none h = h upper_leaf
beneath-invisible q mode now next (some (upper_dir inner m t)) h = h inner
beneath-invisible q mode now next (some whiteout) h = refl
beneath-invisible q mode now next (some (upper_file _ _ _)) h = refl
beneath-invisible q mode now next (some (upper_symlink _ _)) h = refl

beneath-unchanged :
    (q : List Bytes) (mode : ℕ) (now : Time) (next : UpperChildren → UpperChildren)
    (o : Option UpperNode)
    → ((inner : UpperChildren) → descend_by q (next inner) ≡ descend_by q inner)
    → beneath (descend_by q) (scaffolded mode now next o) ≡ beneath (descend_by q) o
beneath-unchanged q mode now next none h = rw (h upper_leaf, descend_by-leaf q) refl
beneath-unchanged q mode now next (some (upper_dir inner m t)) h = h inner
beneath-unchanged q mode now next (some whiteout) h = refl
beneath-unchanged q mode now next (some (upper_file _ _ _)) h = refl
beneath-unchanged q mode now next (some (upper_symlink _ _)) h = refl

under_whiteout :
    (s : Bytes) (q : List Bytes) (ch : UpperChildren)
    → get_child s ch ≡ some whiteout
    → is_invisible (descend_by (s ∷ q) ch) ≡ true
unfolding descend_by
under_whiteout s [] ch h = rw h refl
under_whiteout s (u ∷ q) ch h = rw h refl

pub both : (a b : Bool) → a && b ≡ true → (a ≡ true) × (b ≡ true)
both a b h = ground arith

put_whiteout_by-invisible :
    (lower_mode : Bytes → Option ℕ) (now : Time) (cur_path seg : Bytes) (p q : List Bytes)
    (ch : UpperChildren)
    → is_prefix (seg ∷ p) q ≡ true
    → is_invisible (descend_by q (put_whiteout_by lower_mode now cur_path (seg ∷ p) ch)) ≡ true
unfolding put_whiteout_by is_prefix descend_by
put_whiteout_by-invisible lm now cur seg p [] ch h = cc
put_whiteout_by-invisible lm now cur seg [] (s ∷ q) ch h =
    under_whiteout s q (insert_child seg whiteout ch)
      (get_child-insert_same s seg whiteout ch (rw (beq_sym s seg) (both (beq seg s) true h).0))
put_whiteout_by-invisible lm now cur seg (t ∷ p) (s ∷ []) ch h = ground arith
put_whiteout_by-invisible lm now cur seg (t ∷ p) (s ∷ u ∷ q) ch h =
    let here : beq s seg ≡ true =
      rw (beq_sym s seg) (both (beq seg s) (is_prefix (t ∷ p) (u ∷ q)) h).0 in
    rw
      (scaffold-same s seg (mode_or (lm (vfs_join cur seg))) now
        (put_whiteout_by lm now (vfs_join cur seg) (t ∷ p)) ch (get_child seg ch) here
        (same_child s seg ch here))
      (beneath-invisible (u ∷ q) (mode_or (lm (vfs_join cur seg))) now
        (put_whiteout_by lm now (vfs_join cur seg) (t ∷ p)) (get_child seg ch)
        (λ inner.
          put_whiteout_by-invisible lm now (vfs_join cur seg) t p (u ∷ q) inner
            (both (beq seg s) (is_prefix (t ∷ p) (u ∷ q)) h).1))

step_apart :
    (b : Bool) (s u seg : Bytes) (q : List Bytes) (mode : ℕ) (now : Time)
    (next : UpperChildren → UpperChildren) (ch : UpperChildren)
    → beq s seg ≡ b
    → (b ≡ true
        → (inner : UpperChildren) → descend_by (u ∷ q) (next inner) ≡ descend_by (u ∷ q) inner)
    → descend_by (s ∷ u ∷ q) (scaffold seg mode now next ch (get_child seg ch))
      ≡ descend_by (s ∷ u ∷ q) ch
unfolding descend_by
step_apart false s u seg q mode now next ch e same =
    rw (scaffold-other s seg mode now next ch (get_child seg ch) e) refl
step_apart true s u seg q mode now next ch e same =
    let here = same_child s seg ch e in
    rw (scaffold-same s seg mode now next ch (get_child seg ch) e here, here)
      (beneath-unchanged (u ∷ q) mode now next (get_child seg ch) (same refl))

put_whiteout_by-Apart :
    (lower_mode : Bytes → Option ℕ) (now : Time) (cur_path : Bytes) (p q : List Bytes)
    (ch : UpperChildren)
    → Apart p q
    → descend_by q (put_whiteout_by lower_mode now cur_path p ch) ≡ descend_by q ch
unfolding put_whiteout_by is_prefix
put_whiteout_by-Apart lm now cur [] q ch h = refl
put_whiteout_by-Apart lm now cur (seg ∷ p) [] ch (h, k) = cc
put_whiteout_by-Apart lm now cur (seg ∷ []) (s ∷ q) ch (h, k) =
    descend_by-child s q (insert_child seg whiteout ch) ch (
      ground (
        arith,
        get_child-insert_child s seg whiteout ch,
        beq_sym s seg,
        other_name seg s true refl h,
      ))
put_whiteout_by-Apart lm now cur (seg ∷ t ∷ p) (s ∷ []) ch (h, k) = descend_by-child s [] _ ch (
    scaffold-other s seg (mode_or (lm (vfs_join cur seg))) now
      (put_whiteout_by lm now (vfs_join cur seg) (t ∷ p)) ch (get_child seg ch)
      (other_name s seg true refl k))
put_whiteout_by-Apart lm now cur (seg ∷ t ∷ p) (s ∷ u ∷ q) ch (h, k) =
    step_apart (beq s seg) s u seg q (mode_or (lm (vfs_join cur seg))) now
      (put_whiteout_by lm now (vfs_join cur seg) (t ∷ p)) ch refl
      (λ e inner. put_whiteout_by-Apart lm now (vfs_join cur seg) (t ∷ p) (u ∷ q) inner (
        together (beq seg s) (is_prefix (t ∷ p) (u ∷ q)) h (rw (beq_sym seg s) e),
        together (beq s seg) (is_prefix (u ∷ q) (t ∷ p)) k e,
      ))

invisible_lem :
    (lower_mode : Bytes → Option ℕ) (now : Time) (cur_path : Bytes) (p q : List Bytes)
    (ch : UpperChildren)
    → p ≢ []
    → is_prefix p q ≡ true
    → is_invisible (descend_by q (put_whiteout_by lower_mode now cur_path p ch)) ≡ true
invisible_lem lm now cur [] q ch n h = absurd (n refl)
invisible_lem lm now cur (seg ∷ p) q ch n h = put_whiteout_by-invisible lm now cur seg p q ch h

-- Where the path is not the root, put_whiteout leaves no content at it or below it, and no way to the lower layer.
pub put_whiteout-invisible :
    (path below : Bytes) (lower_mode : Bytes → Option ℕ) (now : Time) (ch : UpperChildren)
    → path_segments path ≢ []
    → is_prefix (path_segments path) (path_segments below) ≡ true
    → is_invisible (descend below (put_whiteout path lower_mode now ch)) ≡ true
unfolding put_whiteout descend
put_whiteout-invisible path below lm now ch n h =
    invisible_lem lm now (slash ∷ []) (path_segments path) (path_segments below) ch n h

-- Where neither of two paths stands above the other, put_whiteout, detach, append_file, set_mode and set_mtime on the one
-- leave what is found at the other.
pub edits-Apart :
    (path other : Bytes) (lower_mode : Bytes → Option ℕ) (now : Time) (more : Bytes) (mode : ℕ)
    (ch : UpperChildren)
    → Apart (path_segments path) (path_segments other)
    → (descend other (put_whiteout path lower_mode now ch) ≡ descend other ch)
      × (descend other (detach path ch) ≡ descend other ch)
      × (descend other (append_file path more now ch).0 ≡ descend other ch)
      × (descend other (set_mode path mode ch).0 ≡ descend other ch)
      × (descend other (set_mtime path now ch).0 ≡ descend other ch)
unfolding put_whiteout detach append_file set_mode set_mtime with_node_mut descend
edits-Apart path other lm now more mode ch a = (
  put_whiteout_by-Apart lm now (slash ∷ []) (path_segments path) (path_segments other) ch a,
  with_parent_children-Apart path (path_segments path) (path_segments other) remove_name ch
      remove_name-KeepsOthers a,
  rw (as_not_found-keeps path) (
      with_node_mut_by-Apart path (path_segments path) (path_segments other)
        (appended path more now) ch a),
  with_node_mut_by-Apart path (path_segments path) (path_segments other) (mode_changed path mode) ch
      a,
  with_node_mut_by-Apart path (path_segments path) (path_segments other) (mtime_changed path now) ch
      a,
)
