-- ===== src/Vfs/Memory/Operations/Access.antt =====
-- src/vfs/memory.rs: `with_node`, `with_parent_mut` and their kin, which every method goes through.
use rust_bash.Prelude.{
  ℕ, zero, suc, List, [], ◌∷◌, Bool, true, false, Option, none, some, if◌then◌else◌, pop, last?,
  Result, ok, err, ◌>>=◌, is_ok,
}
use rust_bash.Prelude.Bytes.{Bytes, codes}
use rust_bash.Vfs.Path.{
  slash, VfsError, not_found, not_a_directory, symlink_loop, invalid_path, is_empty, vfs_join,
  vfs_normalize_checked, components,
}
use rust_bash.Vfs.Node.{FsNode, directory, Children, get, set_child}
use rust_bash.Vfs.Memory.Navigate.{navigate, resolve_canonical, resolve_canonical_from_root}

abbrev pub max_symlink_depth : ℕ
max_symlink_depth = 40

-- The tree after a method, and what the method returns.
abbrev pub Outcome : Type 0 → Type 0
Outcome A = FsNode × Result A VfsError

abbrev pub Done : Type 0
Done = Outcome (Unit {0})

unfoldable pub with_node :
    {A : Type 0} → Bytes → (FsNode → Result A VfsError) → FsNode → Result A VfsError
with_node path f tree = do
  norm ← vfs_normalize_checked path
  node ← navigate max_symlink_depth tree norm true tree
  f node

unfoldable pub with_node_no_follow :
    {A : Type 0} → Bytes → (FsNode → Result A VfsError) → FsNode → Result A VfsError
with_node_no_follow path f tree = do
  norm ← vfs_normalize_checked path
  node ← navigate max_symlink_depth tree norm false tree
  f node

-- The second loop of `navigate_mut`, and the change that the caller makes through the reference.
unfoldable pub modify :
    {A : Type 0} → List Bytes → Bytes → (FsNode → Outcome A) → FsNode → Outcome A
modify [] path f node = f node
modify (name ∷ names) path f (directory ch m t) = elim (get name ch) [
  | none ↦ (directory ch m t, err (not_found path))
  | some child ↦ let r = modify names path f child in (directory (set_child name r.0 ch) m t, r.1)
]
modify (name ∷ names) path f node = (node, err (not_a_directory path))

abbrev pub modify_at :
    {A : Type 0} → Bytes → (FsNode → Outcome A) → FsNode → Result Bytes VfsError → Outcome A
modify_at path f root (err e) = (root, err e)
modify_at path f root (ok canonical) = modify (components canonical) path f root

-- `navigate_mut`, then `f` on the node.
unfoldable pub navigate_mut :
    {A : Type 0} → ℕ → Bytes → Bool → (FsNode → Outcome A) → FsNode → Outcome A
navigate_mut zero path follow f root = (root, err (symlink_loop path))
navigate_mut (suc d) path follow f root =
    if is_empty (components path)
    then f root
    else modify_at path f root (resolve_canonical_from_root (suc d) root path follow)

abbrev pub bind_outcome : {A B : Type 0} → FsNode → Result A VfsError → (A → Outcome B) → Outcome B
bind_outcome tree (err e) k = (tree, err e)
bind_outcome tree (ok a) k = k a

unfoldable pub with_node_mut : {A : Type 0} → Bytes → (FsNode → Outcome A) → FsNode → Outcome A
with_node_mut path f tree =
    bind_outcome tree (vfs_normalize_checked path)
      (λ norm. navigate_mut max_symlink_depth norm true f tree)

-- The loop that rebuilds the parent's path from its components.
unfoldable pub join_all : Bytes → List Bytes → Bytes
join_all p [] = p
join_all p (seg ∷ segs) = join_all (vfs_join p seg) segs

abbrev pub at_parent :
    {A : Type 0} → List Bytes → Option Bytes → (FsNode → Bytes → Outcome A) → FsNode → Outcome A
at_parent parts none f tree = (tree, err (invalid_path (codes "cannot operate on root itself")))
at_parent parts (some child_name) f tree =
    navigate_mut max_symlink_depth (join_all (slash ∷ []) (pop parts)) true (λ p. f p child_name)
      tree

unfoldable pub with_parent_mut :
    {A : Type 0} → Bytes → (FsNode → Bytes → Outcome A) → FsNode → Outcome A
with_parent_mut path f tree =
    bind_outcome tree (vfs_normalize_checked path)
      (λ norm. at_parent (components norm) (last? (components norm)) f tree)

-- A closure that changes the children of the parent, or refuses before any change.
unfoldable pub edit_children : Bytes → (Children → Result Children VfsError) → FsNode → Done
edit_children path edit (directory ch m t) = elim (edit ch) [
  | ok ch' ↦ (directory ch' m t, ok tt)
  | err e ↦ (directory ch m t, err e)
]
edit_children path edit node = (node, err (not_a_directory path))

-- `exists`, `resolve_path`
unfoldable pub exists_path : Bytes → FsNode → Bool
exists_path path tree = elim (vfs_normalize_checked path) [
  | ok norm ↦ is_ok (navigate max_symlink_depth tree norm true tree)
  | err _ ↦ false
]

unfoldable pub resolve_path : Bytes → FsNode → Result Bytes VfsError
resolve_path path tree = do
  norm ← vfs_normalize_checked path
  resolve_canonical max_symlink_depth tree norm tree
