-- ===== src/Tests/Layered.antt =====
-- Runs of src/vfs/overlay.rs over a lower layer with one file, /f, and the theorems applied to them.
use rust_bash.Prelude.{
  ◌≡◌, refl, arith, List, [], ◌∷◌, true, false, Result, ok, err, if◌then◌else◌, not, is_ok, ◌||◌,
  ◌&&◌, Bool-cases, inl, inr,
}
use rust_bash.Prelude.Bytes.{Bytes, codes, beq, beq_iff}
use rust_bash.Vfs.Path.{
  slash, split, non_empty, join, vfs_join, vfs_normalize_checked, segments, segment,
  vfs_path_is_absolute, components, trim_start, VfsError, not_found, not_a_directory,
}
use rust_bash.Vfs.Path.Names.{IsName}
use rust_bash.Vfs.Memory.Operations.Files.{
  Metadata, NodeType, file_type, directory_type, symlink_type,
}
use rust_bash.Vfs.Memory.Operations.Directories.{DirEntry}
use rust_bash.Vfs.Overlay.Node.{
  whiteout, upper_file, upper_dir, UpperChildren, upper_leaf, upper_entry, get_child, remove_child,
}
use rust_bash.Vfs.Overlay.Order.{IsOrdered}
use rust_bash.Vfs.Overlay.Gone.{merged_at-remove_file}
use rust_bash.Vfs.Overlay.Tree.{
  path_segments, descend, descend_by, put_whiteout, put_whiteout_by, detach, with_parent_children,
}
use rust_bash.Vfs.Overlay.Tree.Listing.{meta}
use rust_bash.Vfs.Overlay.Resurrect.{is_prefix}
use rust_bash.Vfs.Overlay.Layers.{
  Lower, is_whiteout, resolve_path, resolve_path_depth, resolve_walk, path_components,
  resolve_layer,
}
use rust_bash.Vfs.Overlay.Reads.{readlink, lstat, lstat_overlay, merged_at}
use rust_bash.Vfs.Overlay.Removal.{removal_target, remove_file, remove_dir_all, hide}
use rust_bash.Vfs.Overlay.Diff.{diff, sync, sync_loop}
use rust_bash.Vfs.Overlay.Changes.{IsIn, diff-descend}
use rust_bash.Vfs.Overlay.Tree.Listing.{walk_post, walk_post_loop, push_fresh, node_count}
use rust_bash.Vfs.Overlay.Hidden.{is_hidden, IsTree}
use rust_bash.Vfs.Overlay.Removed.{is_hidden-remove_file, is_hidden-remove_dir_all}
use rust_bash.Vfs.Overlay.Entries.{has}
use rust_bash.Vfs.Overlay.Merged.{
  ListsNames, in_tree, path_segments-render, merged_at-resolve_layer,
}

abbrev meta_of : NodeType → Metadata
meta_of type = record { node_type = type; size = 1; mode = 420; mtime = 0; file_id = 0 }

-- What the lower layer has, by its segments: / with f.
abbrev on_disk : List Bytes → Result Metadata VfsError
on_disk [] = ok (meta_of directory_type)
on_disk (s ∷ []) = if beq s (codes "f") then ok (meta_of file_type) else err (not_found s)
on_disk (s ∷ u ∷ p) = err (not_found s)

abbrev listing : List Bytes → Result (List DirEntry) VfsError
listing [] = ok (record { name = codes "f"; node_type = file_type } ∷ [])
listing (s ∷ p) = err (not_a_directory s)

abbrev disk : Lower
disk = record {
  lstat_lower = λ path. on_disk (path_segments path);
  stat_lower = λ path. on_disk (path_segments path);
  readdir_lower = λ path. listing (path_segments path);
  read_lower_file = λ path. ok (codes "x");
  readlink_lower = λ path. err (not_found path);
}

above_there :
    (p q : List Bytes) → is_prefix p q ≡ true → is_ok (on_disk q) ≡ true → is_ok (on_disk p) ≡ true
unfolding is_prefix
above_there [] q h k = refl
above_there (s ∷ []) [] h k = cc
above_there (s ∷ []) (u ∷ []) h k = ground (arith, beq_iff s u)
above_there (s ∷ []) (u ∷ v ∷ q) h k = cc
above_there (s ∷ r ∷ p) [] h k = cc
above_there (s ∷ r ∷ p) (u ∷ []) h k = ground arith
above_there (s ∷ r ∷ p) (u ∷ v ∷ q) h k = cc

disk-IsTree : IsTree disk
disk-IsTree above below = above_there (path_segments above) (path_segments below)

named : (name : Bytes) → (beq name (codes "f") || false) ≡ is_ok (on_disk (name ∷ []))
named name = elim (Bool-cases (beq name (codes "f"))) [ inl e ↦ rw e refl | inr e ↦ rw e refl ]

one_name : (name : Bytes) → IsName name → path_segments (slash ∷ name) ≡ name ∷ []
unfolding join
one_name name n = path_segments-render (name ∷ []) (n, tt)

root_names : path_segments (slash ∷ []) ≡ []
unfolding path_segments split non_empty
root_names = refl

disk-ListsNames : ListsNames disk (slash ∷ [])
unfolding has vfs_join
disk-ListsNames name n = rw (root_names, one_name name n) (named name)

-- /f on disk is removed, and a directory that stands in the upper tree alone.
abbrev upper_only : UpperChildren
upper_only =
    upper_entry (codes "d")
      (upper_dir (upper_entry (codes "x") (upper_file (codes "x") 420 0) upper_leaf) 493 0)
      upper_leaf

is_hidden-remove_file_example :
    is_hidden (resolve_layer disk (codes "/f") (remove_file disk (codes "/f") 0 upper_only).0)
    ≡ true
unfolding remove_file removal_target vfs_normalize_checked vfs_path_is_absolute segments segment
    split join beq is_whiteout descend descend_by path_segments non_empty get_child resolve_path
    resolve_path_depth resolve_walk path_components components trim_start vfs_join is_prefix
    put_whiteout put_whiteout_by
is_hidden-remove_file_example =
    is_hidden-remove_file disk (codes "/f") (codes "/f") (codes "/f") 0 upper_only disk-IsTree refl
      (λ e. cc) refl refl

is_hidden-remove_dir_all_example :
    is_hidden (resolve_layer disk (codes "/d/x") (remove_dir_all disk (codes "/d") 0 upper_only).0)
    ≡ true
unfolding remove_dir_all removal_target vfs_normalize_checked vfs_path_is_absolute segments segment
    split join beq is_whiteout descend descend_by path_segments non_empty get_child resolve_path
    resolve_path_depth resolve_walk path_components components trim_start vfs_join is_prefix
    lstat_overlay meta hide detach with_parent_children remove_child
is_hidden-remove_dir_all_example =
    is_hidden-remove_dir_all disk (codes "/d") (codes "/d") (codes "/d/x") 0 upper_only disk-IsTree
      refl (λ e. cc) refl refl

f-IsName : IsName (codes "f")
f-IsName = record {
  inhabited = λ e. cc;
  not_dot = λ e. cc;
  not_dotdot = λ e. cc;
  no_slash = (λ e. cc, tt);
}

upper_only-IsOrdered : IsOrdered upper_only
unfolding IsOrdered
upper_only-IsOrdered = (tt, (tt, tt, tt), tt)

merged_at-resolve_layer_example :
    has (codes "f") (merged_at disk (slash ∷ []) upper_only)
    ≡ not (is_hidden (resolve_layer disk (vfs_join (slash ∷ []) (codes "f")) upper_only))
unfolding join
merged_at-resolve_layer_example =
    merged_at-resolve_layer disk [] (codes "f") upper_only tt f-IsName upper_only-IsOrdered
      disk-ListsNames (in_tree upper_only refl)

-- Of the root's names, f and d, the first is gone.
merged_at-remove_file_example :
    has (codes "f") (merged_at disk (slash ∷ []) (remove_file disk (codes "/f") 0 upper_only).0) ≡ (
      not (beq (codes "f") (codes "f")) && has (codes "f") (merged_at disk (slash ∷ []) upper_only))
unfolding remove_file removal_target vfs_normalize_checked vfs_path_is_absolute segments segment
    split join beq is_whiteout descend descend_by path_segments non_empty get_child resolve_path
    resolve_path_depth resolve_walk path_components components trim_start vfs_join put_whiteout
    put_whiteout_by
merged_at-remove_file_example =
    merged_at-remove_file disk [] (codes "f") (codes "f") (codes "/f") 0 upper_only tt f-IsName
      f-IsName upper_only-IsOrdered refl disk-IsTree disk-ListsNames refl refl

-- A link on disk at /a/l, behind a file that stands at /a in the upper tree: lstat does not see it, and readlink does.
abbrev linked : Lower
linked = record {
  lstat_lower = λ path. ok (meta_of symlink_type);
  stat_lower = λ path. err (not_found path);
  readdir_lower = λ path. err (not_a_directory path);
  read_lower_file = λ path. err (not_found path);
  readlink_lower = λ path. ok (codes "secret");
}

abbrev shadowed : UpperChildren
shadowed = upper_entry (codes "a") (upper_file (codes "x") 420 0) upper_leaf

shadowed_lstat : lstat linked (codes "/a/l") shadowed ≡ err (not_a_directory (codes "/a/l"))
unfolding lstat lstat_overlay vfs_normalize_checked vfs_path_is_absolute segments segment split join
    beq descend descend_by path_segments non_empty get_child
shadowed_lstat = refl

shadowed_readlink : readlink linked (codes "/a/l") shadowed ≡ ok (codes "secret")
unfolding readlink vfs_normalize_checked vfs_path_is_absolute segments segment split join beq
    descend descend_by path_segments non_empty get_child
shadowed_readlink = refl

d-IsName : IsName (codes "d")
d-IsName = record {
  inhabited = λ e. cc;
  not_dot = λ e. cc;
  not_dotdot = λ e. cc;
  no_slash = (λ e. cc, tt);
}

x-IsName : IsName (codes "x")
x-IsName = record {
  inhabited = λ e. cc;
  not_dot = λ e. cc;
  not_dotdot = λ e. cc;
  no_slash = (λ e. cc, tt);
}

diff-descend_example :
    IsIn
      (record { path = codes "/d/x"; node_type = file_type; content = codes "x"; mode = 420 })
      (diff disk upper_only).writes
unfolding join descend descend_by path_segments split non_empty get_child beq
diff-descend_example =
    diff-descend disk (codes "d") (codes "x" ∷ []) (codes "x") 420 0 upper_only
      (d-IsName, (x-IsName, tt)) refl

-- What was deleted on disk goes from the overlay, and what still differs stays.
synced : sync disk (upper_entry (codes "gone") whiteout upper_only) ≡ upper_only
unfolding sync sync_loop walk_post walk_post_loop push_fresh node_count vfs_join path_segments split
    non_empty beq descend descend_by get_child detach with_parent_children remove_child
synced = refl
