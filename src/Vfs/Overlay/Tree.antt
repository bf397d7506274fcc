-- ===== src/Vfs/Overlay/Tree.antt =====
-- src/vfs/overlay_tree.rs: the methods of `OverlayTree`, which is the root's children. A path is taken apart by
-- `path_segments` first, and a loop over the segments is recursion on their list. A write through a reference puts the
-- node back under its name.
pub mod Listing
use rust_bash.Prelude.{
  ℕ, List, [], ◌∷◌, ◌++◌, Bool, true, false, Option, none, some, Result, ok, err, length,
}
use rust_bash.Prelude.Bytes.{Bytes, codes}
use rust_bash.Vfs.Path.{
  slash, VfsError, not_found, already_exists, not_a_directory, is_a_directory, invalid_path, split,
  non_empty, vfs_join,
}
use rust_bash.Vfs.Node.{Time}
use rust_bash.Vfs.Memory.Operations.Files.{Metadata, file_type, directory_type, symlink_type}
use rust_bash.Vfs.Overlay.Node.{
  UpperNode, upper_file, upper_dir, upper_symlink, whiteout, UpperChildren, upper_leaf, upper_entry,
  get_child, insert_child, remove_child, is_content,
}

-- `segments`
unfoldable pub path_segments : Bytes → List Bytes
unfolding split non_empty
path_segments path = non_empty (split path)

pub data Descend : Type 0 where
  found : UpperNode → Descend
  missing blocked not_dir : Descend

-- What is behind a segment that is not the last, given the descent from a directory's children.
abbrev pub beneath : (UpperChildren → Descend) → Option UpperNode → Descend
beneath next none = missing
beneath next (some whiteout) = blocked
beneath next (some (upper_dir children _ _)) = next children
beneath next (some (upper_file _ _ _)) = not_dir
beneath next (some (upper_symlink _ _)) = not_dir

abbrev pub at_last : Option UpperNode → Descend
at_last none = missing
at_last (some node) = found node

unfoldable pub descend_by : List Bytes → UpperChildren → Descend
unfolding get_child
descend_by [] children = missing
descend_by (seg ∷ []) children = at_last (get_child seg children)
descend_by (seg ∷ s ∷ segs) children = beneath (descend_by (s ∷ segs)) (get_child seg children)

unfoldable pub descend : Bytes → UpperChildren → Descend
unfolding descend_by path_segments
descend path children = descend_by (path_segments path) children

abbrev pub is_blocked_or_whiteout : Descend → Bool
is_blocked_or_whiteout blocked = true
is_blocked_or_whiteout (found whiteout) = true
is_blocked_or_whiteout _ = false

abbrev pub content : Descend → Option UpperNode
content (found (upper_file c m t)) = some (upper_file c m t)
content (found (upper_dir c m t)) = some (upper_dir c m t)
content (found (upper_symlink l t)) = some (upper_symlink l t)
content _ = none

-- The children after a method, and what it returns.
abbrev pub Edit : Type 0 → Type 0
Edit A = UpperChildren × Result A VfsError

abbrev pub Edited : Type 0
Edited = Edit (Unit {0})

abbrev pub put_back : {A : Type 0} → Bytes → ℕ → Time → UpperChildren → Edit A → Edit A
put_back seg mode mtime children (inner, r) =
    (insert_child seg (upper_dir inner mode mtime) children, r)

abbrev pub edit_beneath :
    {A : Type 0}
    → Bytes
    → Bytes
    → (UpperChildren → Edit A)
    → UpperChildren
    → Option UpperNode
    → Edit A
edit_beneath path seg next children none = (children, err (not_found path))
edit_beneath path seg next children (some whiteout) = (children, err (not_found path))
edit_beneath path seg next children (some (upper_dir inner mode mtime)) =
    put_back seg mode mtime children (next inner)
edit_beneath path seg next children (some (upper_file _ _ _)) =
    (children, err (not_a_directory path))
edit_beneath path seg next children (some (upper_symlink _ _)) =
    (children, err (not_a_directory path))

-- `parent_children_mut`, and what the caller does with the last segment and the children it is given.
unfoldable pub with_parent_children :
    {A : Type 0} → Bytes → List Bytes → (Bytes → UpperChildren → Edit A) → UpperChildren → Edit A
unfolding get_child insert_child
with_parent_children path [] f children =
    (children, err (invalid_path (codes "cannot operate on root")))
with_parent_children path (seg ∷ []) f children = f seg children
with_parent_children path (seg ∷ s ∷ segs) f children =
    edit_beneath path seg (with_parent_children path (s ∷ segs) f) children (get_child seg children)

-- The rules for what may stand at the name already.
abbrev pub may_attach : Bytes → UpperNode → Option UpperNode → Result (Unit {0}) VfsError
may_attach path node none = ok tt
may_attach path (upper_dir _ _ _) (some existing) = err (already_exists path)
may_attach path (upper_file _ _ _) (some (upper_dir _ _ _)) = err (is_a_directory path)
may_attach path (upper_symlink _ _) (some (upper_dir _ _ _)) = err (is_a_directory path)
may_attach path whiteout (some (upper_dir _ _ _)) = err (is_a_directory path)
may_attach path (upper_file _ _ _) (some _) = ok tt
may_attach path (upper_symlink _ _) (some _) = ok tt
may_attach path whiteout (some _) = ok tt

abbrev pub insert_if : Bytes → UpperNode → UpperChildren → Result (Unit {0}) VfsError → Edited
insert_if name node children (err e) = (children, err e)
insert_if name node children (ok u) = (insert_child name node children, ok tt)

abbrev pub attach_at : Bytes → UpperNode → Bytes → UpperChildren → Edited
attach_at path node name children =
    insert_if name node children (may_attach path node (get_child name children))

-- On the root, `unwrap` panics: that is `none`.
unfoldable pub attach_by : Bytes → List Bytes → UpperNode → UpperChildren → Option Edited
unfolding with_parent_children
attach_by path [] node children = none
attach_by path (seg ∷ segs) node children =
    some (with_parent_children path (seg ∷ segs) (attach_at path node) children)

unfoldable pub attach : Bytes → UpperNode → UpperChildren → Option Edited
unfolding attach_by path_segments
attach path node children = attach_by path (path_segments path) node children

abbrev pub mode_or : Option ℕ → ℕ
mode_or none = 0o755
mode_or (some mode) = mode

-- A scaffold directory, or what is there already; a whiteout, file or link stops the loop.
abbrev pub scaffold :
    Bytes
    → ℕ
    → Time
    → (UpperChildren → UpperChildren)
    → UpperChildren
    → Option UpperNode
    → UpperChildren
scaffold seg mode now next children none =
    insert_child seg (upper_dir (next upper_leaf) mode now) children
scaffold seg mode now next children (some (upper_dir inner m t)) =
    insert_child seg (upper_dir (next inner) m t) children
scaffold seg mode now next children (some whiteout) = children
scaffold seg mode now next children (some (upper_file _ _ _)) = children
scaffold seg mode now next children (some (upper_symlink _ _)) = children

unfoldable pub put_whiteout_by :
    (Bytes → Option ℕ) → Time → Bytes → List Bytes → UpperChildren → UpperChildren
unfolding get_child insert_child
put_whiteout_by lower_mode now cur_path [] children = children
put_whiteout_by lower_mode now cur_path (seg ∷ []) children = insert_child seg whiteout children
put_whiteout_by lower_mode now cur_path (seg ∷ s ∷ segs) children =
    scaffold seg (mode_or (lower_mode (vfs_join cur_path seg))) now
      (put_whiteout_by lower_mode now (vfs_join cur_path seg) (s ∷ segs)) children
      (get_child seg children)

unfoldable pub put_whiteout : Bytes → (Bytes → Option ℕ) → Time → UpperChildren → UpperChildren
unfolding put_whiteout_by path_segments
put_whiteout path lower_mode now children =
    put_whiteout_by lower_mode now (slash ∷ []) (path_segments path) children

abbrev pub remove_name : Bytes → UpperChildren → Edited
remove_name name children = (remove_child name children, ok tt)

-- An error of `parent_children_mut` is dropped.
unfoldable pub detach : Bytes → UpperChildren → UpperChildren
unfolding with_parent_children path_segments remove_child
detach path children = (with_parent_children path (path_segments path) remove_name children).0

-- The whiteouts for the names that the lower layer has.
unfoldable pub hide_all : List Bytes → UpperChildren → UpperChildren
unfolding insert_child
hide_all [] children = children
hide_all (name ∷ names) children = hide_all names (insert_child name whiteout children)

abbrev pub names_or : Option (List Bytes) → List Bytes
names_or none = []
names_or (some names) = names

-- One round of `ensure_dirs`, given the rest of the loop.
abbrev pub ensure_one :
    Bytes
    → Bytes
    → List Bytes
    → ℕ
    → Time
    → (UpperChildren → Edited)
    → UpperChildren
    → Option UpperNode
    → Edited
ensure_one cur_path seg names mode now next children none =
    put_back seg mode now children (next upper_leaf)
ensure_one cur_path seg names mode now next children (some whiteout) =
    put_back seg mode now children (next (hide_all names upper_leaf))
ensure_one cur_path seg names mode now next children (some (upper_dir inner m t)) =
    put_back seg m t children (next inner)
ensure_one cur_path seg names mode now next children (some (upper_file _ _ _)) =
    (children, err (not_a_directory cur_path))
ensure_one cur_path seg names mode now next children (some (upper_symlink _ _)) =
    (children, err (not_a_directory cur_path))

unfoldable pub ensure_dirs_by :
    (Bytes → Option (List Bytes))
    → (Bytes → Option ℕ)
    → Time
    → Bytes
    → List Bytes
    → UpperChildren
    → Edited
unfolding get_child insert_child hide_all
ensure_dirs_by lower_readdir lower_mode now cur_path [] children = (children, ok tt)
ensure_dirs_by lower_readdir lower_mode now cur_path (seg ∷ segs) children =
    ensure_one (vfs_join cur_path seg) seg (names_or (lower_readdir (vfs_join cur_path seg)))
      (mode_or (lower_mode (vfs_join cur_path seg))) now
      (ensure_dirs_by lower_readdir lower_mode now (vfs_join cur_path seg) segs) children
      (get_child seg children)

unfoldable pub ensure_dirs :
    Bytes → (Bytes → Option (List Bytes)) → (Bytes → Option ℕ) → Time → UpperChildren → Edited
unfolding ensure_dirs_by path_segments
ensure_dirs path lower_readdir lower_mode now children =
    ensure_dirs_by lower_readdir lower_mode now (slash ∷ []) (path_segments path) children
