-- ===== src/Vfs/Overlay/Tree/Listing.antt =====
-- src/vfs/overlay_tree.rs: the methods that read a node or change one in place, and the walks.
use rust_bash.Prelude.{
  ℕ, zero, suc, ◌+◌, List, [], ◌∷◌, ◌++◌, Bool, true, false, Option, none, some, Result, ok, err,
  length,
}
use rust_bash.Prelude.Bytes.{Bytes, codes}
use rust_bash.Vfs.Path.{slash, VfsError, not_found, is_a_directory, invalid_path, vfs_join}
use rust_bash.Vfs.Node.{Time}
use rust_bash.Vfs.Memory.Operations.Files.{Metadata, file_type, directory_type, symlink_type}
use rust_bash.Vfs.Memory.Operations.Directories.{DirEntry}
use rust_bash.Vfs.Overlay.Node.{
  UpperNode, upper_file, upper_dir, upper_symlink, whiteout, UpperChildren, upper_leaf, upper_entry,
  get_child, insert_child,
}
use rust_bash.Vfs.Overlay.Tree.{
  path_segments, Descend, found, descend, Edited, with_parent_children,
}

-- A whiteout has no type: `node_type` panics on it, and the listing leaves it out.
unfoldable pub visible_entries : UpperChildren → List DirEntry
visible_entries upper_leaf = []
visible_entries (upper_entry name whiteout rest) = visible_entries rest
visible_entries (upper_entry name (upper_file _ _ _) rest) =
    record { name = name; node_type = file_type } ∷ visible_entries rest
visible_entries (upper_entry name (upper_dir _ _ _) rest) =
    record { name = name; node_type = directory_type } ∷ visible_entries rest
visible_entries (upper_entry name (upper_symlink _ _) rest) =
    record { name = name; node_type = symlink_type } ∷ visible_entries rest

unfoldable pub whiteout_names : UpperChildren → List Bytes
whiteout_names upper_leaf = []
whiteout_names (upper_entry name whiteout rest) = name ∷ whiteout_names rest
whiteout_names (upper_entry name (upper_file _ _ _) rest) = whiteout_names rest
whiteout_names (upper_entry name (upper_dir _ _ _) rest) = whiteout_names rest
whiteout_names (upper_entry name (upper_symlink _ _) rest) = whiteout_names rest

abbrev pub dir_children : Descend → Option UpperChildren
dir_children (found (upper_dir children _ _)) = some children
dir_children _ = none

-- The root is no node, but a directory.
abbrev pub children_from : List Bytes → UpperChildren → Descend → Option UpperChildren
children_from [] children at = some children
children_from (seg ∷ segs) children at = dir_children at

unfoldable pub children_at : Bytes → UpperChildren → Option UpperChildren
unfolding descend path_segments
children_at path children = children_from (path_segments path) children (descend path children)

abbrev pub listed : Option UpperChildren → Option (List DirEntry)
listed none = none
listed (some inner) = some (visible_entries inner)

unfoldable pub dir_entries : Bytes → UpperChildren → Option (List DirEntry)
unfolding children_at visible_entries
dir_entries path children = listed (children_at path children)

abbrev pub whiteouts : Option UpperChildren → List Bytes
whiteouts none = []
whiteouts (some inner) = whiteout_names inner

unfoldable pub whiteout_children : Bytes → UpperChildren → List Bytes
unfolding children_at whiteout_names
whiteout_children path children = whiteouts (children_at path children)

abbrev pub node_meta : Descend → Option Metadata
node_meta (found (upper_file content mode mtime)) = some (record {
  node_type = file_type;
  size = length content;
  mode = mode;
  mtime = mtime;
  file_id = 0;
})
node_meta (found (upper_dir _ mode mtime)) =
    some (record { node_type = directory_type; size = 0; mode = mode; mtime = mtime; file_id = 0 })
node_meta (found (upper_symlink target mtime)) = some (record {
  node_type = symlink_type;
  size = length target;
  mode = 0o777;
  mtime = mtime;
  file_id = 0;
})
node_meta _ = none

unfoldable pub meta : Bytes → UpperChildren → Option Metadata
unfolding descend
meta path children = node_meta (descend path children)

-- `node_mut`, with the change that the caller makes through the reference: a new node, or an error.
abbrev pub write_back : Bytes → UpperChildren → Result UpperNode VfsError → Edited
write_back name children (ok node) = (insert_child name node children, ok tt)
write_back name children (err e) = (children, err e)

abbrev pub change_node :
    Bytes
    → (UpperNode → Result UpperNode VfsError)
    → Bytes
    → UpperChildren
    → Option UpperNode
    → Edited
change_node path f name children none = (children, err (not_found path))
change_node path f name children (some node) = write_back name children (f node)

abbrev pub change_at :
    Bytes → (UpperNode → Result UpperNode VfsError) → Bytes → UpperChildren → Edited
change_at path f name children = change_node path f name children (get_child name children)

unfoldable pub with_node_mut_by :
    Bytes → List Bytes → (UpperNode → Result UpperNode VfsError) → UpperChildren → Edited
unfolding with_parent_children get_child insert_child
with_node_mut_by path [] f children = (children, err (invalid_path (codes "root")))
with_node_mut_by path (seg ∷ segs) f children =
    with_parent_children path (seg ∷ segs) (change_at path f) children

unfoldable pub with_node_mut :
    Bytes → (UpperNode → Result UpperNode VfsError) → UpperChildren → Edited
unfolding path_segments with_node_mut_by
with_node_mut path f children = with_node_mut_by path (path_segments path) f children

abbrev pub appended : Bytes → Bytes → Time → UpperNode → Result UpperNode VfsError
appended path more now (upper_file c mode _) = ok (upper_file (c ++ more) mode now)
appended path more now (upper_dir _ _ _) = err (is_a_directory path)
appended path more now (upper_symlink _ _) = err (not_found path)
appended path more now whiteout = err (not_found path)

-- Every error of `node_mut` becomes `NotFound`.
abbrev pub as_not_found : Bytes → Edited → Edited
as_not_found path (children, ok u) = (children, ok u)
as_not_found path (children, err (is_a_directory p)) = (children, err (is_a_directory p))
as_not_found path (children, err _) = (children, err (not_found path))

unfoldable pub append_file : Bytes → Bytes → Time → UpperChildren → Edited
unfolding with_node_mut
append_file path more now children =
    as_not_found path (with_node_mut path (appended path more now) children)

abbrev pub mode_changed : Bytes → ℕ → UpperNode → Result UpperNode VfsError
mode_changed path mode (upper_file c _ t) = ok (upper_file c mode t)
mode_changed path mode (upper_dir c _ t) = ok (upper_dir c mode t)
mode_changed path mode (upper_symlink _ _) = err (invalid_path path)
mode_changed path mode whiteout = err (invalid_path path)

unfoldable pub set_mode : Bytes → ℕ → UpperChildren → Edited
unfolding with_node_mut
set_mode path mode children = with_node_mut path (mode_changed path mode) children

abbrev pub mtime_changed : Bytes → Time → UpperNode → Result UpperNode VfsError
mtime_changed path t (upper_file c m _) = ok (upper_file c m t)
mtime_changed path t (upper_dir c m _) = ok (upper_dir c m t)
mtime_changed path t (upper_symlink l _) = ok (upper_symlink l t)
mtime_changed path t whiteout = err (invalid_path path)

unfoldable pub set_mtime : Bytes → Time → UpperChildren → Edited
unfolding with_node_mut
set_mtime path t children = with_node_mut path (mtime_changed path t) children

abbrev pub Visit : Type 0
Visit = Bytes × UpperNode

-- The children with their paths, in the order in which they come off the stack, before what is on it.
unfoldable pub push_children : Bytes → UpperChildren → List Visit → List Visit
push_children path upper_leaf stack = stack
push_children path (upper_entry name child rest) stack =
    (vfs_join path name, child) ∷ push_children path rest stack

abbrev pub push_inner : Bytes → UpperNode → List Visit → List Visit
push_inner path (upper_dir children _ _) stack = push_children path children stack
push_inner path (upper_file _ _ _) stack = stack
push_inner path (upper_symlink _ _) stack = stack
push_inner path whiteout stack = stack

-- The loop of `walk`, from what is on the stack.
unfoldable pub walk_loop : ℕ → List Visit → List Visit
unfolding push_children
walk_loop zero stack = []
walk_loop (suc fuel) [] = []
walk_loop (suc fuel) ((path, node) ∷ stack) =
    (path, node) ∷ walk_loop fuel (push_inner path node stack)

-- The loop of `walk_post`: a node comes off the stack twice.
unfoldable pub push_fresh : Bytes → UpperChildren → List (Visit × Bool) → List (Visit × Bool)
push_fresh path upper_leaf stack = stack
push_fresh path (upper_entry name child rest) stack =
    ((vfs_join path name, child), false) ∷ push_fresh path rest stack

abbrev pub push_fresh_inner : Bytes → UpperNode → List (Visit × Bool) → List (Visit × Bool)
push_fresh_inner path (upper_dir children _ _) stack = push_fresh path children stack
push_fresh_inner path (upper_file _ _ _) stack = stack
push_fresh_inner path (upper_symlink _ _) stack = stack
push_fresh_inner path whiteout stack = stack

unfoldable pub walk_post_loop : ℕ → List (Visit × Bool) → List Visit
unfolding push_fresh
walk_post_loop zero stack = []
walk_post_loop (suc fuel) [] = []
walk_post_loop (suc fuel) ((visit, true) ∷ stack) = visit ∷ walk_post_loop fuel stack
walk_post_loop (suc fuel) (((path, node), false) ∷ stack) =
    walk_post_loop fuel (push_fresh_inner path node (((path, node), true) ∷ stack))

-- Fuel for the walks.
unfoldable mutual
  -- The nodes of a tree.
  pub node_count : UpperNode → ℕ
  node_count (upper_dir children _ _) = suc (children_count children)
  node_count (upper_file _ _ _) = 1
  node_count (upper_symlink _ _) = 1
  node_count whiteout = 1

  pub children_count : UpperChildren → ℕ
  children_count upper_leaf = 0
  children_count (upper_entry _ child rest) = node_count child + children_count rest

unfoldable pub walk : UpperChildren → List Visit
unfolding walk_loop children_count
walk children = walk_loop (suc (children_count children)) (push_children (slash ∷ []) children [])

unfoldable pub walk_post : UpperChildren → List Visit
unfolding walk_post_loop children_count
walk_post children =
    walk_post_loop (suc (children_count children + children_count children))
      (push_fresh (slash ∷ []) children [])
