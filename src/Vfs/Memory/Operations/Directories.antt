-- ===== src/Vfs/Memory/Operations/Directories.antt =====
-- src/vfs/memory.rs: creating, listing and removing directory entries.
use rust_bash.Prelude.{List, [], ◌∷◌, none, some, if◌then◌else◌, Result, ok, err}
use rust_bash.Prelude.Bytes.{Bytes}
use rust_bash.Vfs.Path.{
  VfsError, not_found, already_exists, not_a_directory, is_a_directory, directory_not_empty,
  vfs_normalize_checked, components,
}
use rust_bash.Vfs.Node.{
  FsNode, file, directory, symlink, Time, Children, leaf, entry, get, insert, remove, set_child,
  contains_key, no_children,
}
use rust_bash.Vfs.Memory.Operations.Access.{
  Done, with_node, with_parent_mut, bind_outcome, edit_children,
}
use rust_bash.Vfs.Memory.Operations.Files.{NodeType, file_type, directory_type, symlink_type}

abbrev new_directory : Time → FsNode
new_directory now = directory leaf 0o755 now

-- What `remove_file` removes: a link itself, never its target.
unfoldable pub unlink : Bytes → Bytes → Children → Result Children VfsError
unlink norm name ch = elim (get name ch) [
  | none ↦ err (not_found norm)
  | some (file _ _ _ _) ↦ ok (remove name ch)
  | some (symlink _ _) ↦ ok (remove name ch)
  | some (directory _ _ _) ↦ err (is_a_directory norm)
]

unfoldable pub remove_file : Bytes → FsNode → Done
remove_file path tree = bind_outcome tree (vfs_normalize_checked path) (λ norm.
    with_parent_mut path (λ parent name. edit_children norm (unlink norm name) parent) tree)

-- The guard of `mkdir` and `symlink`: nothing may be there.
unfoldable pub insert_new : Bytes → FsNode → Bytes → Children → Result Children VfsError
insert_new path node name ch =
    if contains_key name ch then err (already_exists path) else ok (insert name node ch)

unfoldable pub mkdir : Bytes → Time → FsNode → Done
mkdir path now tree =
    with_parent_mut path
      (λ parent name. edit_children path (insert_new path (new_directory now) name) parent) tree

-- The loop of `mkdir_p`. What it created before an error stays.
unfoldable pub mkdir_p_from : Bytes → Time → List Bytes → FsNode → Done
mkdir_p_from path now [] node = (node, ok tt)
mkdir_p_from path now (name ∷ names) (directory ch m t) = elim (get name ch) [
  | none ↦
      let r = mkdir_p_from path now names (new_directory now) in
      (directory (insert name r.0 ch) m t, r.1)
  | some (directory c m' t') ↦
      let r = mkdir_p_from path now names (directory c m' t') in
      (directory (set_child name r.0 ch) m t, r.1)
  | some (file _ _ _ _) ↦ (directory ch m t, err (not_a_directory path))
  | some (symlink _ _) ↦ (directory ch m t, err (not_a_directory path))
]
mkdir_p_from path now (name ∷ names) node = (node, err (not_a_directory path))

unfoldable pub mkdir_p : Bytes → Time → FsNode → Done
mkdir_p path now tree =
    bind_outcome tree (vfs_normalize_checked path)
      (λ norm. mkdir_p_from path now (components norm) tree)

pub record DirEntry : Type 0 where
  pub name : Bytes
  pub node_type : NodeType

unfoldable pub type_of : FsNode → NodeType
type_of (file _ _ _ _) = file_type
type_of (directory _ _ _) = directory_type
type_of (symlink _ _) = symlink_type

unfoldable pub entries : Children → List DirEntry
entries leaf = []
entries (entry name child rest) = record { name = name; node_type = type_of child } ∷ entries rest

unfoldable pub list_node : Bytes → FsNode → Result (List DirEntry) VfsError
list_node path (directory ch _ _) = ok (entries ch)
list_node path _ = err (not_a_directory path)

unfoldable pub readdir : Bytes → FsNode → Result (List DirEntry) VfsError
readdir path tree = with_node path (list_node path) tree

unfoldable pub remove_empty : Bytes → Bytes → Children → Result Children VfsError
remove_empty path name ch = elim (get name ch) [
  | none ↦ err (not_found path)
  | some (directory c _ _) ↦
      if no_children c then ok (remove name ch) else err (directory_not_empty path)
  | some (file _ _ _ _) ↦ err (not_a_directory path)
  | some (symlink _ _) ↦ err (not_a_directory path)
]

unfoldable pub remove_dir : Bytes → FsNode → Done
remove_dir path tree =
    with_parent_mut path (λ parent name. edit_children path (remove_empty path name) parent) tree

unfoldable pub remove_subtree : Bytes → Bytes → Children → Result Children VfsError
remove_subtree path name ch = elim (get name ch) [
  | none ↦ err (not_found path)
  | some (directory _ _ _) ↦ ok (remove name ch)
  | some (file _ _ _ _) ↦ err (not_a_directory path)
  | some (symlink _ _) ↦ err (not_a_directory path)
]

unfoldable pub remove_dir_all : Bytes → FsNode → Done
remove_dir_all path tree =
    with_parent_mut path (λ parent name. edit_children path (remove_subtree path name) parent) tree
