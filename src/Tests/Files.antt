-- ===== src/Tests/Files.antt =====
-- Runs of the operations of src/vfs/memory.rs on one small tree, whose path /l is a link to /d.
use rust_bash.Prelude.{◌≡◌, ◌≢◌, refl, true, [], ◌∷◌, ◌++◌, ok, err, some, arith}
use rust_bash.Prelude.Bytes.{Bytes, codes, beq}
use rust_bash.Vfs.Path.{
  not_found, vfs_join, split, join, segment, segments, vfs_normalize_checked, components, non_empty,
}
use rust_bash.Vfs.Path.Names.{Names}
use rust_bash.Vfs.Node.{
  FsNode, file, directory, symlink, leaf, entry, get, insert, remove, set_child,
}
use rust_bash.Vfs.Memory.Navigate.{
  descend, navigate, resolve_if_symlink, canonical_child, canonical_step, canonical_walk,
  resolve_canonical, resolve_canonical_from_root, navigate_to,
}
use rust_bash.Vfs.Memory.Operations.Access.{with_node, modify, resolve_path}
use rust_bash.Vfs.Memory.Operations.Files.{
  Metadata, file_type, node_metadata, stat, read_node, read_file, write_file, append_file, chmod,
}
use rust_bash.Vfs.Memory.Operations.Links.{canonicalize, detach, attach, move_node, rename}
use rust_bash.Vfs.Memory.Canonical.{Direct, Resolves, resolve_canonical_from_root-Direct}
use rust_bash.Vfs.Memory.Agreement.{navigate-resolve_canonical}
use rust_bash.Vfs.Memory.Success.{navigate-canonical_ok}
use rust_bash.Vfs.Memory.Shape.{SameShape, files, links, directories, entries, leaves}
use rust_bash.Vfs.Memory.ReadWrite.{read_file-write_file, read_file-write_file_other}
use rust_bash.Vfs.Memory.Attributes.{read_file-append_file, stat-chmod}

abbrev note : FsNode
note = file (codes "hi") 420 7 1

abbrev with_file : FsNode → FsNode
with_file f =
    directory
      (entry (codes "d") (directory (entry (codes "f") f leaf) 493 0) (
        entry (codes "g") (file (codes "ho") 420 7 2)
          (entry (codes "l") (symlink (codes "/d") 0) leaf)))
      493 0

abbrev tree : FsNode
tree = with_file note

-- The file, by its link.
abbrev path : Bytes
path = codes "/l/f"

path-Names : Names (components path)
unfolding components non_empty split
path-Names = (
  record {
    inhabited = λ e. cc;
    not_dot = λ e. cc;
    not_dotdot = λ e. cc;
    no_slash = ((λ e. cc), tt);
  },
  (
    record {
      inhabited = λ e. cc;
      not_dot = λ e. cc;
      not_dotdot = λ e. cc;
      no_slash = ((λ e. cc), tt);
    },
    tt,
  ),
)

reads : read_file path tree ≡ ok (codes "hi")
unfolding read_file vfs_normalize_checked components split segments segment join beq non_empty
    navigate get read_node with_node descend
reads = refl

-- The source's `rename` takes the node out before it looks at the destination: a failed call has lost it.
rename_loses : rename (codes "/d/f") (codes "/no/f") tree ≡ (
  directory
      (entry (codes "d") (directory leaf 493 0) (
        entry
          (codes "g")
          (file (codes "ho") 420 7 2)
          (entry (codes "l") (symlink (codes "/d") 0) leaf)))
      493
      0,
  err (not_found (codes "/no/f")),
)
unfolding rename vfs_normalize_checked move_node components non_empty split join segments segment
    beq modify get detach set_child remove attach insert
rename_loses = refl

other : canonicalize (codes "/g") tree ≢ canonicalize path tree
unfolding canonicalize resolve_path resolve_canonical canonical_walk canonical_step canonical_child
    resolve_if_symlink navigate components split non_empty descend get vfs_normalize_checked
    segments segment join beq vfs_join
other = λ e. cc

read_file-write_file_example :
    let out = write_file path (codes "new") 9 tree in
    (out.1 ≡ ok tt) × (read_file path out.0 ≡ ok (codes "new"))
read_file-write_file_example =
    read_file-write_file path (codes "new") 9 tree (codes "hi") refl reads

read_file-write_file_other_example :
    read_file (codes "/g") (write_file path (codes "new") 9 tree).0 ≡ read_file (codes "/g") tree
read_file-write_file_other_example =
    read_file-write_file_other path (codes "new") 9 tree (codes "hi") (codes "/g") refl reads other

read_file-append_file_example :
    let out = append_file path (codes "!") 9 tree in
    (out.1 ≡ ok tt) × (read_file path out.0 ≡ ok (codes "hi" ++ codes "!"))
read_file-append_file_example =
    read_file-append_file path (codes "!") 9 tree (codes "hi") refl reads

abbrev shown : Metadata
shown = record { node_type = file_type; size = 2; mode = 420; mtime = 7; file_id = 1 }

stats : stat path tree ≡ ok shown
unfolding stat vfs_normalize_checked components split segments segment join beq non_empty navigate
    get node_metadata with_node descend
stats = refl

stat-chmod_example :
    let out = chmod path 448 tree in
    (out.1 ≡ ok tt)
    × (stat path out.0 ≡ ok (record shown { mode = 448 }))
    × (read_file path out.0 ≡ ok (codes "hi"))
stat-chmod_example = stat-chmod path 448 tree (codes "hi") shown refl reads stats

navigated : navigate 4 tree path true tree ≡ ok note
unfolding navigate components split non_empty descend get vfs_normalize_checked segments segment
    join beq
navigated = refl

canonical : resolve_canonical_from_root 3 tree path true ≡ ok (codes "/d/f")
unfolding resolve_canonical_from_root canonical_walk canonical_step canonical_child
    resolve_if_symlink navigate components split non_empty descend get vfs_normalize_checked
    segments segment join beq vfs_join
canonical = refl

navigate-resolve_canonical_example : navigate_to (components (codes "/d/f")) tree ≡ some note
navigate-resolve_canonical_example =
    navigate-resolve_canonical 4 3 tree path (codes "/d/f") note refl path-Names navigated canonical

resolve_canonical_from_root-Direct_example : Resolves tree (codes "/d/f")
resolve_canonical_from_root-Direct_example =
    resolve_canonical_from_root-Direct 3 tree path (codes "/d/f") refl path-Names canonical

navigate-canonical_ok_example : (c : Bytes) × (resolve_canonical_from_root 5 tree path true ≡ ok c)
navigate-canonical_ok_example =
    navigate-canonical_ok 4 5 tree path note (omega arith) refl path-Names navigated

direct : Direct tree (codes "/d/f") note
unfolding navigate_to get beq join
direct = record {
  names = codes "d" ∷ codes "f" ∷ [];
  valid = (
    record {
      inhabited = λ e. cc;
      not_dot = λ e. cc;
      not_dotdot = λ e. cc;
      no_slash = ((λ e. cc), tt);
    },
    (
      record {
        inhabited = λ e. cc;
        not_dot = λ e. cc;
        not_dotdot = λ e. cc;
        no_slash = ((λ e. cc), tt);
      },
      tt,
    ),
  );
  rendered = refl;
  leads = refl;
  no_link = refl;
}

abbrev written : FsNode
written = with_file (file (codes "new") 384 9 1)

same_shape : SameShape tree written
same_shape =
    directories
      (entries (directories (entries files leaves)) (entries files (entries links leaves)))
