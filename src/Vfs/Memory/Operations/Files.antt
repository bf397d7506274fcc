-- ===== src/Vfs/Memory/Operations/Files.antt =====
-- src/vfs/memory.rs: reading, writing and describing nodes.
use Prim.Native.Nat.{max}
use rust_bash.Prelude.{
  ℕ, zero, suc, ◌+◌, List, ◌∷◌, ◌++◌, Bool, true, false, Option, none, some, if◌then◌else◌, length,
  Result, ok, err, ◌>>=◌, is_ok, pop, ◌&&◌, not,
}
use rust_bash.Prelude.Bytes.{Bytes, codes}
use rust_bash.Vfs.Path.{
  slash, VfsError, is_a_directory, symlink_loop, invalid_path, io_error, join, vfs_normalize,
  vfs_normalize_checked, vfs_resolve, vfs_path_is_absolute, components,
}
use rust_bash.Vfs.Node.{FsNode, file, directory, symlink, Time, Children, leaf, entry, insert}
use rust_bash.Vfs.Memory.Navigate.{resolve_canonical_from_root, navigate_to}
use rust_bash.Vfs.Memory.Operations.Access.{
  max_symlink_depth, Done, with_node, with_node_no_follow, with_node_mut, with_parent_mut, modify,
  bind_outcome, edit_children, exists_path,
}

pub data NodeType : Type 0 where
  file_type directory_type symlink_type : NodeType

pub record Metadata : Type 0 where
  pub node_type : NodeType
  pub size : ℕ
  pub mode : ℕ
  pub mtime : Time
  pub file_id : ℕ

unfoldable pub node_metadata : FsNode → Metadata
node_metadata (file content mode mtime file_id) = record {
  node_type = file_type;
  size = length content;
  mode = mode;
  mtime = mtime;
  file_id = file_id;
}
node_metadata (directory _ mode mtime) = record {
  node_type = directory_type;
  size = 0;
  mode = mode;
  mtime = mtime;
  file_id = 0;
}
node_metadata (symlink target mtime) = record {
  node_type = symlink_type;
  size = length target;
  mode = 0o777;
  mtime = mtime;
  file_id = 0;
}

unfoldable pub stat : Bytes → FsNode → Result Metadata VfsError
stat path tree = with_node path (λ node. ok (node_metadata node)) tree

unfoldable pub lstat : Bytes → FsNode → Result Metadata VfsError
lstat path tree = with_node_no_follow path (λ node. ok (node_metadata node)) tree

unfoldable pub read_node : Bytes → FsNode → Result Bytes VfsError
read_node path (file content _ _ _) = ok content
read_node path (directory _ _ _) = err (is_a_directory path)
read_node path (symlink _ _) = err (io_error (codes "unexpected symlink after resolution"))

unfoldable pub read_file : Bytes → FsNode → Result Bytes VfsError
read_file path tree = with_node path (read_node path) tree

unfoldable pub readlink_node : Bytes → FsNode → Result Bytes VfsError
readlink_node path (symlink target _) = ok target
readlink_node path _ = err (invalid_path (codes "not a symlink: " ++ path))

unfoldable pub readlink : Bytes → FsNode → Result Bytes VfsError
readlink path tree = with_node_no_follow path (readlink_node path) tree

-- `next_file_id`: one more than the largest id in the tree.
unfoldable mutual
  pub max_id : FsNode → ℕ → ℕ
  max_id (file _ _ _ id) m = max m id
  max_id (directory ch _ _) m = max_child_id ch m
  max_id (symlink _ _) m = m

  pub max_child_id : Children → ℕ → ℕ
  max_child_id leaf m = m
  max_child_id (entry _ node rest) m = max_child_id rest (max_id node m)

unfoldable pub next_file_id : FsNode → ℕ
next_file_id tree = max_id tree 0 + 1

abbrev pub is_symlink_type : Result Metadata VfsError → Bool
is_symlink_type (err _) = false
is_symlink_type (ok m) = elim m.node_type [ symlink_type ↦ true | _ ↦ false ]

-- `current.parent()` of a normalised path, `/` for the root.
unfoldable pub parent_path : Bytes → Bytes
parent_path path = slash ∷ join (pop (components path))

unfoldable pub link_destination : Bytes → Bytes → Bytes
link_destination current text =
    if vfs_path_is_absolute text
    then vfs_normalize text
    else vfs_normalize (vfs_resolve (parent_path current) text)

unfoldable pub dangling : Bytes → FsNode → Bool
dangling current tree = is_symlink_type (lstat current tree) && not (is_ok (stat current tree))

-- The loop of `resolve_through_dangling` in src/vfs/mod.rs; `n` rounds are left.
unfoldable pub through_dangling : ℕ → Bytes → Bytes → FsNode → Result Bytes VfsError
through_dangling zero path current tree = err (symlink_loop path)
through_dangling (suc n) path current tree =
    let next = (do
      text ← readlink current tree
      through_dangling n path (link_destination current text) tree) in
    if dangling current tree then next else ok current

unfoldable pub resolve_through_dangling : Bytes → FsNode → Result Bytes VfsError
resolve_through_dangling path tree = through_dangling max_symlink_depth path path tree

-- The second half of `write_file`: the file is created in its parent directory.
unfoldable pub create_file : Bytes → Bytes → Bytes → Time → FsNode → Done
create_file path norm content now tree =
    let file_id = next_file_id tree in
    with_parent_mut norm
      (λ parent child_name.
        edit_children path (λ ch. ok (insert child_name (file content 0o644 now file_id) ch))
          parent)
      tree

abbrev pub put : FsNode → FsNode → Done
put new old = (new, ok tt)

-- The first half: a file that is there is overwritten.
unfoldable pub overwrite : Bytes → Bytes → Bytes → Time → FsNode → List Bytes → Option FsNode → Done
overwrite path norm content now tree names (some (file _ mode _ id)) =
    modify names path (put (file content mode now id)) tree
overwrite path norm content now tree names (some (directory _ _ _)) =
    (tree, err (is_a_directory path))
overwrite path norm content now tree names (some (symlink _ _)) =
    create_file path norm content now tree
overwrite path norm content now tree names none = create_file path norm content now tree

abbrev pub write_at : Bytes → Bytes → Bytes → Time → FsNode → Result Bytes VfsError → Done
write_at path norm content now tree (err _) = create_file path norm content now tree
write_at path norm content now tree (ok canon) =
    overwrite path norm content now tree (components canon) (navigate_to (components canon) tree)

unfoldable pub write_file : Bytes → Bytes → Time → FsNode → Done
write_file path content now tree =
    bind_outcome tree (do n ← vfs_normalize_checked path; resolve_through_dangling n tree)
      (λ norm.
        write_at path norm content now tree
          (resolve_canonical_from_root max_symlink_depth tree norm true))

unfoldable pub append_node : Bytes → Bytes → Time → FsNode → Done
append_node path content now (file c mode _ id) = (file (c ++ content) mode now id, ok tt)
append_node path content now (directory ch m t) = (directory ch m t, err (is_a_directory path))
append_node path content now (symlink target t) =
    (symlink target t, err (io_error (codes "unexpected symlink after resolution")))

unfoldable pub append_file : Bytes → Bytes → Time → FsNode → Done
append_file path content now tree =
    if not (exists_path path tree)
    then write_file path content now tree
    else with_node_mut path (append_node path content now) tree

unfoldable pub chmod_node : ℕ → FsNode → Done
chmod_node mode (file c _ t id) = (file c mode t id, ok tt)
chmod_node mode (directory ch _ t) = (directory ch mode t, ok tt)
chmod_node mode (symlink target t) =
    (symlink target t, err (io_error (codes "cannot chmod a symlink directly")))

unfoldable pub chmod : Bytes → ℕ → FsNode → Done
chmod path mode tree = with_node_mut path (chmod_node mode) tree

unfoldable pub utimes_node : Time → FsNode → Done
utimes_node mtime (file c mode _ id) = (file c mode mtime id, ok tt)
utimes_node mtime (directory ch mode _) = (directory ch mode mtime, ok tt)
utimes_node mtime (symlink target _) = (symlink target mtime, ok tt)

unfoldable pub utimes : Bytes → Time → FsNode → Done
utimes path mtime tree = with_node_mut path (utimes_node mtime) tree

abbrev pub and_then : Done → (FsNode → Done) → Done
and_then (tree, err e) k = (tree, err e)
and_then (tree, ok _) k = k tree

unfoldable pub copy : Bytes → Bytes → Time → FsNode → Done
copy src dst now tree = bind_outcome tree (read_file src tree) (λ content.
    bind_outcome tree (stat src tree)
      (λ meta. and_then (write_file dst content now tree) (λ t. chmod dst meta.mode t)))
