-- ===== src/Vfs/Memory/Operations/Links.antt =====
-- src/vfs/memory.rs: symbolic and hard links, and `rename`.
use rust_bash.Prelude.{List, Option, none, some, Result, ok, err, pop, last?}
use rust_bash.Prelude.Bytes.{Bytes, codes}
use rust_bash.Vfs.Path.{
  VfsError, not_found, not_a_directory, invalid_path, vfs_normalize_checked, components,
}
use rust_bash.Vfs.Node.{FsNode, file, directory, symlink as link, Time, get, insert, remove}
use rust_bash.Vfs.Memory.Operations.Access.{
  Outcome, Done, with_parent_mut, modify, bind_outcome, edit_children, resolve_path,
}
use rust_bash.Vfs.Memory.Operations.Files.{stat, read_file}
use rust_bash.Vfs.Memory.Operations.Directories.{insert_new}

unfoldable pub symlink : Bytes → Bytes → Time → FsNode → Done
symlink target path now tree =
    with_parent_mut path
      (λ parent name. edit_children path (insert_new path (link target now) name) parent) tree

-- The node's data is copied, so the two names share nothing but the id.
unfoldable pub hardlink : Bytes → Bytes → FsNode → Done
hardlink src dst tree = bind_outcome tree (read_file src tree) (λ content.
    bind_outcome tree (stat src tree) (λ meta.
      with_parent_mut dst
        (λ parent name.
          edit_children dst (insert_new dst (file content meta.mode meta.mtime meta.file_id) name)
            parent)
        tree))

unfoldable pub canonicalize : Bytes → FsNode → Result Bytes VfsError
canonicalize path tree = resolve_path path tree

-- The first block of `rename`: the node is taken out of the tree.
unfoldable pub detach : Bytes → Bytes → FsNode → Outcome FsNode
detach src name (directory ch m t) = elim (get name ch) [
  | none ↦ (directory ch m t, err (not_found src))
  | some node ↦ (directory (remove name ch) m t, ok node)
]
detach src name node = (node, err (not_a_directory src))

-- The second block: it is put in at the destination, over what may be there.
unfoldable pub attach : Bytes → Bytes → FsNode → FsNode → Done
attach dst name node (directory ch m t) = (directory (insert name node ch) m t, ok tt)
attach dst name node parent = (parent, err (not_a_directory dst))

unfoldable pub move_node :
    Bytes → Bytes → List Bytes → List Bytes → Option Bytes → Option Bytes → FsNode → Done
move_node src dst src_parts dst_parts (some src_child) (some dst_child) tree =
    let out = modify (pop src_parts) src (detach src src_child) tree in
    bind_outcome out.0 out.1 (λ node. modify (pop dst_parts) dst (attach dst dst_child node) out.0)
move_node src dst src_parts dst_parts _ _ tree =
    (tree, err (invalid_path (codes "cannot rename root")))

unfoldable pub rename : Bytes → Bytes → FsNode → Done
rename src dst tree = bind_outcome tree (vfs_normalize_checked src) (λ src_norm.
    bind_outcome tree (vfs_normalize_checked dst) (λ dst_norm.
      move_node src dst (components src_norm) (components dst_norm) (last? (components src_norm))
        (last? (components dst_norm)) tree))
