-- ===== src/Vfs/Memory/Attributes.antt =====
-- src/vfs/memory.rs: `append_file` and `chmod` on a file, which change it through `with_node_mut`.
use rust_bash.Prelude.{
  ◌≡◌, ◌≢◌, refl, ap, ℕ, List, [], ◌∷◌, ◌++◌, true, ok, arith, ◌∙◌, inl, inr, Bool-cases,
}
use rust_bash.Prelude.Bytes.{Bytes}
use rust_bash.Vfs.Path.{slash, components, is_empty, vfs_normalize_checked}
use rust_bash.Vfs.Node.{FsNode, file, Time, is_directory}
use rust_bash.Vfs.Memory.Navigate.{resolve_canonical_from_root, canonical_walk}
use rust_bash.Vfs.Memory.Relocate.{Located}
use rust_bash.Vfs.Memory.Operations.Access.{
  max_symlink_depth, Done, modify, navigate_mut, with_node_mut, with_node, exists_path,
}
use rust_bash.Vfs.Memory.Operations.Files.{
  Metadata, node_metadata, stat, read_file, append_node, append_file, chmod_node, chmod,
}
use rust_bash.Vfs.Memory.Operations.Links.{canonicalize}
use rust_bash.Vfs.Memory.ReadWrite.{
  ReadsFile, read_file_inv, written, written-result, written-Located, written-read, written-other,
}

is_empty-inv : (ws : List Bytes) → is_empty ws ≡ true → ws ≡ []
is_empty-inv [] h = refl
is_empty-inv (w ∷ ws) h = ground arith

canonical_of_root :
    (tree : FsNode) (norm : Bytes)
    → components norm ≡ []
    → resolve_canonical_from_root max_symlink_depth tree norm true ≡ ok (slash ∷ [])
unfolding resolve_canonical_from_root canonical_walk
canonical_of_root tree norm e = rw e refl

-- For the root the change is made at once, and elsewhere through the canonical path.
navigate_mut-modify :
    (f : FsNode → Done) (tree : FsNode) (norm c : Bytes)
    → resolve_canonical_from_root max_symlink_depth tree norm true ≡ ok c
    → navigate_mut max_symlink_depth norm true f tree ≡ modify (components c) norm f tree
unfolding navigate_mut
navigate_mut-modify f tree norm c h = elim (Bool-cases (is_empty (components norm))) [
  | inl e ↦
      let none_left = is_empty-inv (components norm) e in
      let same : slash ∷ [] ≡ c = ground (arith, canonical_of_root tree norm none_left) in
      rw e (rw (← same) (unfold modify components in refl))
  | inr e ↦ rw e (rw h refl)
]

with_node_mut-modify :
    (path : Bytes) (f : FsNode → Done) (tree : FsNode) (old : Bytes) (r : ReadsFile tree path old)
    → with_node_mut path f tree ≡ modify (components r.canonical) r.norm f tree
unfolding with_node_mut
with_node_mut-modify path f tree old r =
    rw r.normal (navigate_mut-modify f tree r.norm r.canonical r.located.canonical)

exists_ReadsFile :
    (path : Bytes) (tree : FsNode) (old : Bytes)
    → ReadsFile tree path old
    → exists_path path tree ≡ true
unfolding exists_path
exists_ReadsFile path tree old r = rw (r.normal, exists_path) (rw r.located.found refl)

append_file_all :
    (path content : Bytes) (now : Time) (tree : FsNode) (old : Bytes)
    → is_directory tree ≡ true
    → read_file path tree ≡ ok old
    → let out = append_file path content now tree in
      (out.1 ≡ ok tt)
      × (read_file path out.0 ≡ ok (old ++ content))
      × ((q : Bytes)
          → canonicalize q tree ≢ canonicalize path tree
          → read_file q out.0 ≡ read_file q tree)
unfolding append_file
append_file_all path content now tree old dir h =
    let r = read_file_inv path tree old dir h in
    let f = append_node path content now in
    rw (exists_ReadsFile path tree old r) (
      rw (with_node_mut-modify path f tree old r) (
        unfold written append_node in
        (
          written-result r.norm path tree old (old ++ content) f r.mode now r.file_id r refl,
          written-read r.norm path tree old (old ++ content) f r.mode now r.file_id r refl,
          written-other r.norm path tree old (old ++ content) f r.mode now r.file_id r refl,
        )))

-- Appending to a file that `path` reads succeeds, and `path` then reads the old content with the new
-- behind it. The root is a directory; links may stand anywhere on the way.
pub read_file-append_file :
    (path content : Bytes) (now : Time) (tree : FsNode) (old : Bytes)
    → is_directory tree ≡ true
    → read_file path tree ≡ ok old
    → let out = append_file path content now tree in
      (out.1 ≡ ok tt) × (read_file path out.0 ≡ ok (old ++ content))
read_file-append_file path content now tree old dir h =
    let all = append_file_all path content now tree old dir h in (all.0, all.1)

-- Appending to a file that `path` reads changes nothing that a path reads whose canonical form is another,
-- or that has none. The root is a directory.
pub read_file-append_file_other :
    (path content : Bytes) (now : Time) (tree : FsNode) (old q : Bytes)
    → is_directory tree ≡ true
    → read_file path tree ≡ ok old
    → canonicalize q tree ≢ canonicalize path tree
    → read_file q (append_file path content now tree).0 ≡ read_file q tree
read_file-append_file_other path content now tree old q dir h =
    (append_file_all path content now tree old dir h).2 q

stat-Located :
    (path : Bytes) (tree : FsNode) (norm c : Bytes) (n : FsNode)
    → vfs_normalize_checked path ≡ ok norm
    → Located tree norm c n
    → stat path tree ≡ ok (node_metadata n)
unfolding stat with_node
stat-Located path tree norm c n normal l = rw normal (rw l.found refl)

chmod_all :
    (path : Bytes) (mode : ℕ) (tree : FsNode) (old : Bytes) (meta : Metadata)
    → is_directory tree ≡ true
    → read_file path tree ≡ ok old
    → stat path tree ≡ ok meta
    → let out = chmod path mode tree in
      (out.1 ≡ ok tt)
      × (stat path out.0 ≡ ok (record meta { mode = mode }))
      × (read_file path out.0 ≡ ok old)
      × ((q : Bytes)
          → canonicalize q tree ≢ canonicalize path tree
          → read_file q out.0 ≡ read_file q tree)
unfolding chmod
chmod_all path mode tree old meta dir h st =
    let r = read_file_inv path tree old dir h in
    let f = chmod_node mode in
    let chmod_meta : node_metadata (file old mode r.mtime r.file_id) ≡ record meta { mode = mode } =
      unfold node_metadata in
      (ground (arith, stat-Located path tree r.norm r.canonical _ r.normal r.located)) in
    rw (with_node_mut-modify path f tree old r) (
      unfold written chmod_node in
      (
        written-result r.norm path tree old old f mode r.mtime r.file_id r refl,
        stat-Located path _ r.norm r.canonical _ r.normal
              (written-Located r.norm path tree old old f mode r.mtime r.file_id r refl)
            ∙ ap ok chmod_meta,
        written-read r.norm path tree old old f mode r.mtime r.file_id r refl,
        written-other r.norm path tree old old f mode r.mtime r.file_id r refl,
      ))

-- `chmod` on a file that `path` reads succeeds: the mode that `stat` shows is the new one, its other
-- fields are the old ones, and `path` reads what it read before. The root is a directory.
pub stat-chmod :
    (path : Bytes) (mode : ℕ) (tree : FsNode) (old : Bytes) (meta : Metadata)
    → is_directory tree ≡ true
    → read_file path tree ≡ ok old
    → stat path tree ≡ ok meta
    → let out = chmod path mode tree in
      (out.1 ≡ ok tt)
      × (stat path out.0 ≡ ok (record meta { mode = mode }))
      × (read_file path out.0 ≡ ok old)
stat-chmod path mode tree old meta dir h st =
    let all = chmod_all path mode tree old meta dir h st in (all.0, all.1, all.2)
