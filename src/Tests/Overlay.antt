-- ===== src/Tests/Overlay.antt =====
-- Runs of src/vfs/overlay_tree.rs: the source's own tests, and the theorems applied to their trees.
use rust_bash.Prelude.{
  ◌≡◌, refl, List, [], ◌∷◌, Option, none, some, ok, err, ℕ, true, map, if◌then◌else◌,
}
use rust_bash.Prelude.Bytes.{Bytes, codes, beq}
use rust_bash.Vfs.Path.{slash, split, non_empty, vfs_join, is_a_directory}
use rust_bash.Vfs.Node.{cmp}
use rust_bash.Vfs.Overlay.Node.{
  UpperNode, upper_file, upper_dir, whiteout, UpperChildren, upper_leaf, upper_entry, get_child,
  insert_child,
}
use rust_bash.Vfs.Overlay.Tree.{
  descend, descend_by, path_segments, ensure_dirs, ensure_dirs_by, attach, attach_by,
  with_parent_children, put_whiteout, put_whiteout_by, hide_all, detach, found, not_dir,
  is_blocked_or_whiteout,
}
use rust_bash.Vfs.Overlay.Tree.Listing.{
  walk, walk_post, walk_loop, walk_post_loop, push_children, push_fresh, node_count, set_mode,
  set_mtime, append_file,
}
use rust_bash.Vfs.Overlay.Resurrect.{is_prefix, lists, Listed, settle, ensure_dirs-settle}
use rust_bash.Vfs.Overlay.Attach.{attach-descend}
use rust_bash.Vfs.Overlay.Whiteout.{is_invisible, put_whiteout-invisible, edits-Apart}
use rust_bash.Vfs.Overlay.Walks.{preorder_children, postorder_children, walk-preorder}

abbrev x_file : UpperNode
x_file = upper_file (codes "x") 420 1

abbrev no_names : Bytes → Option (List Bytes)
no_names path = none

abbrev no_mode : Bytes → Option ℕ
no_mode path = none

-- /a/b/f and /a/g
abbrev tree : UpperChildren
tree =
    upper_entry (codes "a")
      (upper_dir
        (upper_entry (codes "b") (upper_dir (upper_entry (codes "f") x_file upper_leaf) 493 0)
          (upper_entry (codes "g") x_file upper_leaf))
        493 0)
      upper_leaf

-- /a with a new file n
abbrev grown : UpperNode
grown =
    upper_dir
      (upper_entry (codes "b") (upper_dir (upper_entry (codes "f") x_file upper_leaf) 493 0)
        (upper_entry (codes "g") x_file (upper_entry (codes "n") x_file upper_leaf)))
      493 0

-- /a/b
abbrev made : UpperChildren
made =
    upper_entry (codes "a")
      (upper_dir (upper_entry (codes "b") (upper_dir upper_leaf 493 0) upper_leaf) 493 0) upper_leaf

-- /a is deleted.
abbrev deleted : UpperChildren
deleted = upper_entry (codes "a") whiteout upper_leaf

made-run : ensure_dirs (codes "/a/b") no_names no_mode 0 upper_leaf ≡ (made, ok tt)
unfolding ensure_dirs ensure_dirs_by path_segments split non_empty vfs_join get_child insert_child
    cmp beq hide_all
made-run = refl

below_file : descend (codes "/a/g/deeper") tree ≡ not_dir
unfolding descend descend_by path_segments split non_empty get_child beq
below_file = refl

collapsed : put_whiteout (codes "/a") no_mode 0 tree ≡ deleted
unfolding put_whiteout put_whiteout_by path_segments split non_empty get_child insert_child cmp beq
    vfs_join
collapsed = refl

over_directory : attach (codes "/a") x_file tree ≡ some (tree, err (is_a_directory (codes "/a")))
unfolding attach attach_by with_parent_children path_segments split non_empty get_child insert_child
    cmp beq
over_directory = refl

-- The lower layer has /a with old1 and old2.
abbrev old_names : Bytes → Option (List Bytes)
old_names path = if beq path (codes "/a") then some (codes "old1" ∷ codes "old2" ∷ []) else none

still_hidden :
    is_blocked_or_whiteout
      (descend (codes "/a/old1") (ensure_dirs (codes "/a/b") old_names no_mode 0 deleted).0)
    ≡ true
unfolding ensure_dirs ensure_dirs_by path_segments split non_empty vfs_join get_child insert_child
    cmp beq hide_all descend descend_by
still_hidden = refl

walked : map (λ v. v.0) (walk tree) ≡ codes "/a" ∷ codes "/a/b" ∷ codes "/a/b/f" ∷ codes "/a/g" ∷ []
unfolding walk walk_loop push_children node_count vfs_join
walked = refl

walked_post :
    map (λ v. v.0) (walk_post tree) ≡ codes "/a/b/f" ∷ codes "/a/b" ∷ codes "/a/g" ∷ codes "/a" ∷ []
unfolding walk_post walk_post_loop push_fresh node_count vfs_join
walked_post = refl

ensure_dirs-settle_example :
    settle (descend (codes "/a/old1") (ensure_dirs (codes "/a/b") old_names no_mode 0 deleted).0)
    ≡ settle (descend (codes "/a/old1") deleted)
unfolding path_segments split non_empty is_prefix Listed lists beq vfs_join
ensure_dirs-settle_example =
    ensure_dirs-settle old_names no_mode 0 (codes "/a/b") (codes "/a/old1") deleted refl (refl, tt)

put_whiteout-invisible_example :
    is_invisible (descend (codes "/a/b/f") (put_whiteout (codes "/a/b") no_mode 0 tree)) ≡ true
unfolding path_segments split non_empty is_prefix beq
put_whiteout-invisible_example =
    put_whiteout-invisible (codes "/a/b") (codes "/a/b/f") no_mode 0 tree (λ e. cc) refl

attach-descend_example :
    (descend (codes "/a/n") (insert_child (codes "a") grown tree) ≡ found x_file)
    × (descend (codes "/a/b/f") (insert_child (codes "a") grown tree)
        ≡ descend (codes "/a/b/f") tree)
unfolding path_segments split non_empty is_prefix beq attach attach_by with_parent_children
    get_child insert_child cmp
attach-descend_example =
    attach-descend (codes "/a/n") (codes "/a/b/f") x_file tree (insert_child (codes "a") grown tree)
      refl (refl, refl)

edits-Apart_example :
    (descend (codes "/a/g") (put_whiteout (codes "/a/b") no_mode 7 tree)
      ≡ descend (codes "/a/g") tree)
    × (descend (codes "/a/g") (detach (codes "/a/b") tree) ≡ descend (codes "/a/g") tree)
    × (descend (codes "/a/g") (append_file (codes "/a/b") (codes "y") 7 tree).0
        ≡ descend (codes "/a/g") tree)
    × (descend (codes "/a/g") (set_mode (codes "/a/b") 448 tree).0 ≡ descend (codes "/a/g") tree)
    × (descend (codes "/a/g") (set_mtime (codes "/a/b") 7 tree).0 ≡ descend (codes "/a/g") tree)
unfolding path_segments split non_empty is_prefix beq
edits-Apart_example =
    edits-Apart (codes "/a/b") (codes "/a/g") no_mode 7 (codes "y") 448 tree (refl, refl)

walk-preorder_example :
    (walk tree ≡ preorder_children (slash ∷ []) tree)
    × (walk_post tree ≡ postorder_children (slash ∷ []) tree)
walk-preorder_example = walk-preorder tree
