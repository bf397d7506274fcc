-- ===== src/Tests/Chains.antt =====
-- Runs of src/vfs/memory.rs on a chain of links.
use rust_bash.Prelude.{◌≡◌, refl, ℕ, zero, suc, [], ◌∷◌, ok, err}
use rust_bash.Prelude.Bytes.{codes, beq}
use rust_bash.Vfs.Path.{
  symlink_loop, vfs_join, split, join, segment, segments, vfs_normalize_checked, components,
  non_empty,
}
use rust_bash.Vfs.Node.{FsNode, file, directory, symlink, Children, leaf, entry, get}
use rust_bash.Vfs.Memory.Navigate.{
  descend, navigate, resolve_if_symlink, canonical_child, canonical_step, canonical_walk,
  resolve_canonical,
}
use rust_bash.Vfs.Memory.Operations.Access.{with_node, resolve_path}
use rust_bash.Vfs.Memory.Operations.Files.{read_node, read_file}
use rust_bash.Vfs.Memory.Operations.Links.{canonicalize}

-- n links, the first named by the byte k, each to the next, and a file.
abbrev links : ℕ → ℕ → Children
links zero k = entry (k ∷ []) (file (codes "hi") 420 0 1) leaf
links (suc n) k = entry (k ∷ []) (symlink (b'/' ∷ suc k ∷ []) 0) (links n (suc k))

abbrev chain : ℕ → FsNode
chain n = directory (links n b'a') 493 0

short : read_file (codes "/a") (chain 19) ≡ ok (codes "hi")
unfolding read_file vfs_normalize_checked components split segments segment join beq non_empty
    navigate get read_node with_node descend
short = refl

long : read_file (codes "/a") (chain 24) ≡ err (symlink_loop (codes "/u"))
unfolding read_file vfs_normalize_checked components split segments segment join beq non_empty
    navigate get read_node with_node descend
long = refl

long_canonical : canonicalize (codes "/a") (chain 24) ≡ ok (codes "/y")
unfolding canonicalize resolve_path resolve_canonical canonical_walk canonical_step canonical_child
    resolve_if_symlink navigate components split non_empty descend get vfs_normalize_checked
    segments segment join beq vfs_join
long_canonical = refl
