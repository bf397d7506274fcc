-- ===== src/Vfs/Memory/ReadWrite.antt =====
-- src/vfs/memory.rs: `read_file` and `write_file`, through any symlinks on the way.
use rust_bash.Prelude.{
  ◌≡◌, ◌≢◌, refl, sym, ap, ℕ, true, false, ok, >>=-eq-ok, arith, ◌∙◌, inl, inr, Result-cases,
}
use rust_bash.Prelude.Bytes.{Bytes}
use rust_bash.Vfs.Path.{components, vfs_normalize_checked}
use rust_bash.Vfs.Path.Laws.{vfs_normalize_checked-components, vfs_normalize_checked_idem}
use rust_bash.Vfs.Node.{FsNode, file, directory, symlink, Time, is_directory}
use rust_bash.Vfs.Memory.Navigate.{navigate}
use rust_bash.Vfs.Memory.Shape.{files}
use rust_bash.Vfs.Memory.Update.{modify-result}
use rust_bash.Vfs.Memory.Relocate.{Located, Located-leads, locate, Located-modify, read_file-modify}
use rust_bash.Vfs.Memory.Operations.Access.{
  max_symlink_depth, Done, modify, with_node, resolve_path,
}
use rust_bash.Vfs.Memory.Operations.Files.{
  stat, read_node, read_file, dangling, through_dangling, resolve_through_dangling, put, overwrite,
  write_file,
}
use rust_bash.Vfs.Memory.Operations.Links.{canonicalize}
use rust_bash.Vfs.Memory.Agreement.{resolve_canonical-from_root}

-- The file that a path reads, and where it is.
pub record ReadsFile (tree : FsNode) (path old : Bytes) : Type 0 where
  pub norm : Bytes
  pub canonical : Bytes
  pub mode : ℕ
  pub mtime : Time
  pub file_id : ℕ
  pub normal : vfs_normalize_checked path ≡ ok norm
  pub located : Located tree norm canonical (file old mode mtime file_id)

read_node_inv :
    (path : Bytes) (n : FsNode) {old : Bytes}
    → read_node path n ≡ ok old
    → (m : ℕ) × (t : Time) × (i : ℕ) × (n ≡ file old m t i)
unfolding read_node
read_node_inv path (file c m t i) h = (m, t, i, ground arith)
read_node_inv path (directory _ _ _) h = cc
read_node_inv path (symlink _ _) h = cc

pub read_file_inv :
    (path : Bytes) (tree : FsNode) (old : Bytes)
    → is_directory tree ≡ true
    → read_file path tree ≡ ok old
    → ReadsFile tree path old
unfolding read_file with_node
read_file_inv path tree old dir h =
    let (norm, normal, h1) = >>=-eq-ok (vfs_normalize_checked path) _ h in
    let (n, found, h2) = >>=-eq-ok (navigate max_symlink_depth tree norm true tree) _ h1 in
    let (m, t, i, e) = read_node_inv path n h2 in
    let (c, l) = locate tree norm n dir (vfs_normalize_checked-components path normal).0 found in
    record {
      norm = norm;
      canonical = c;
      mode = m;
      mtime = t;
      file_id = i;
      normal = normal;
      located = rw e at l;
    }

-- What is located is read.
read_file-Located :
    (path : Bytes) (tree : FsNode) (norm c content : Bytes) (m : ℕ) (t : Time) (i : ℕ)
    → vfs_normalize_checked path ≡ ok norm
    → Located tree norm c (file content m t i)
    → read_file path tree ≡ ok content
unfolding read_file with_node read_node
read_file-Located path tree norm c content m t i normal l = rw normal (rw l.found refl)

-- A path that can be followed is not dangling, so it is written at as it stands.
dangling-Located :
    (tree : FsNode) (path norm c : Bytes) (n : FsNode)
    → vfs_normalize_checked path ≡ ok norm
    → Located tree norm c n
    → dangling norm tree ≡ false
unfolding dangling stat with_node
dangling-Located tree path norm c n normal l =
    rw (vfs_normalize_checked_idem path normal) (rw l.found (ground arith))

write_file-modify :
    (path content : Bytes) (now : Time) (tree : FsNode) (old : Bytes) (r : ReadsFile tree path old)
    → write_file path content now tree
      ≡ modify (components r.canonical) path (put (file content r.mode now r.file_id)) tree
unfolding write_file resolve_through_dangling through_dangling overwrite
write_file-modify path content now tree old r = rw r.normal (
    rw (dangling-Located tree path r.norm r.canonical _ r.normal r.located)
      (rw r.located.canonical (rw (Located-leads r.located) refl)))

canonicalize-Located :
    (path : Bytes) (tree : FsNode) (norm c : Bytes) (n : FsNode)
    → vfs_normalize_checked path ≡ ok norm
    → Located tree norm c n
    → canonicalize path tree ≡ ok c
unfolding canonicalize resolve_path
canonicalize-Located path tree norm c n normal l =
    rw normal (resolve_canonical-from_root max_symlink_depth tree norm ∙ l.canonical)

module _ (label path : Bytes) (tree : FsNode) (old new : Bytes) (f : FsNode → Done) (m : ℕ)
    (t : Time) (i : ℕ) (r : ReadsFile tree path old)
    (writes : f (file old r.mode r.mtime r.file_id) ≡ (file new m t i, ok tt)) where
  unfoldable pub written : Done
  written = modify (components r.canonical) label f tree

  pub written-result : written.1 ≡ ok tt
  unfolding written
  written-result =
      modify-result label f (components r.canonical) tree _ (Located-leads r.located) ∙ rw writes

  pub written-Located : Located written.0 r.norm r.canonical (file new m t i)
  unfolding written
  written-Located =
      rw (ap (λ o. o.0) writes) at
        (Located-modify label f tree r.norm r.canonical _ r.located (rw writes files))

  pub written-read : read_file path written.0 ≡ ok new
  written-read =
      read_file-Located path written.0 r.norm r.canonical new m t i r.normal written-Located

  pub written-other :
      (q : Bytes)
      → canonicalize q tree ≢ canonicalize path tree
      → read_file q written.0 ≡ read_file q tree
  unfolding written
  written-other q other = elim (Result-cases (vfs_normalize_checked q)) [
    | inl (nq, normal) ↦
        read_file-modify label f tree r.norm r.canonical _ r.located (rw writes files) q nq refl
          normal
          (λ e. other (
            unfold canonicalize resolve_path in
            (rw (normal, r.normal)
              (resolve_canonical-from_root max_symlink_depth tree nq
                ∙ (e
                    ∙ sym (
                        resolve_canonical-from_root max_symlink_depth tree r.norm
                        ∙ r.located.canonical))))))
    | inr (e, bad) ↦ unfold read_file with_node in (rw bad refl)
  ]

write_file_all :
    (path content : Bytes) (now : Time) (tree : FsNode) (old : Bytes)
    → is_directory tree ≡ true
    → read_file path tree ≡ ok old
    → let out = write_file path content now tree in
      (out.1 ≡ ok tt)
      × (read_file path out.0 ≡ ok content)
      × ((q : Bytes)
          → canonicalize q tree ≢ canonicalize path tree
          → read_file q out.0 ≡ read_file q tree)
write_file_all path content now tree old dir h =
    let r = read_file_inv path tree old dir h in
    let f = put (file content r.mode now r.file_id) in
    rw (write_file-modify path content now tree old r) (
      unfold written in
      (
        written-result path path tree old content f r.mode now r.file_id r refl,
        written-read path path tree old content f r.mode now r.file_id r refl,
        written-other path path tree old content f r.mode now r.file_id r refl,
      ))

-- Writing over a file that `path` reads succeeds, and `path` then reads the new content. The root is a
-- directory; links may stand anywhere on the way.
pub read_file-write_file :
    (path content : Bytes) (now : Time) (tree : FsNode) (old : Bytes)
    → is_directory tree ≡ true
    → read_file path tree ≡ ok old
    → let out = write_file path content now tree in
      (out.1 ≡ ok tt) × (read_file path out.0 ≡ ok content)
read_file-write_file path content now tree old dir h =
    let all = write_file_all path content now tree old dir h in (all.0, all.1)

-- Writing over a file that `path` reads changes nothing that a path reads whose canonical form is another,
-- or that has none. The root is a directory.
pub read_file-write_file_other :
    (path content : Bytes) (now : Time) (tree : FsNode) (old q : Bytes)
    → is_directory tree ≡ true
    → read_file path tree ≡ ok old
    → canonicalize q tree ≢ canonicalize path tree
    → read_file q (write_file path content now tree).0 ≡ read_file q tree
read_file-write_file_other path content now tree old q dir h =
    (write_file_all path content now tree old dir h).2 q
