-- ===== src/Vfs/Memory/Navigate.antt =====
-- src/vfs/memory.rs: navigation through a tree with symlinks. The depth counts down as in the
-- source, so every function is total; where the source has `tree_root`, so has the model.
use rust_bash.Prelude.{
  ◌≡◌, refl, ℕ, zero, suc, List, [], ◌∷◌, Bool, true, Option, none, some, ◌&&◌, not, if◌then◌else◌,
  Result, ok, err, ◌>>=◌,
}
use rust_bash.Prelude.Bytes.{Bytes}
use rust_bash.Vfs.Path.{
  slash, VfsError, not_found, not_a_directory, symlink_loop, is_empty, vfs_join,
  vfs_normalize_checked, components,
}
use rust_bash.Vfs.Node.{FsNode, file, directory, symlink, get}

abbrev pub Found : Type 0
Found = Result FsNode VfsError

-- The `match` of `resolve_if_symlink`, with the navigation that it starts at a link's target.
abbrev pub resolve_by : (Bytes → Found) → FsNode → Found
resolve_by nav (symlink target _) = do t ← vfs_normalize_checked target; nav t
resolve_by nav (file c m t i) = ok (file c m t i)
resolve_by nav (directory ch m t) = ok (directory ch m t)

-- One lookup of the loop in `navigate`. `below` resolves the child.
unfoldable pub descend : (FsNode → Found) → Bytes → Bool → Bytes → FsNode → Found
descend below path keep name (directory ch _ _) = elim (get name ch) [
  | none ↦ err (not_found path)
  | some child ↦ if keep then ok child else below child
]
descend below path keep name _ = err (not_a_directory path)

-- The loop of `navigate`. `here` resolves the current node.
unfoldable pub walk :
    (FsNode → Found) → (FsNode → Found) → Bytes → Bool → List Bytes → FsNode → Found
walk here below path follow [] current = ok current
walk here below path follow (name ∷ names) current = do
  dir ← here current
  next ← descend below path (is_empty names && not follow) name dir
  walk here below path follow names next

-- `navigate`: `resolve_if_symlink` at this depth and at the next is written out, since it calls back.
unfoldable pub navigate : ℕ → FsNode → Bytes → Bool → FsNode → Found
unfolding walk
navigate zero root path follow tree = err (symlink_loop path)
navigate (suc zero) root path follow tree =
    walk (resolve_by (λ t. err (symlink_loop t))) (λ _. err (symlink_loop path)) path follow
      (components path) root
navigate (suc (suc d)) root path follow tree =
    walk (resolve_by (λ t. navigate (suc d) tree t true tree))
      (resolve_by (λ t. navigate d tree t true tree)) path follow (components path) root

unfoldable pub resolve_if_symlink : ℕ → FsNode → Bytes → FsNode → Found
resolve_if_symlink zero node original_path tree = err (symlink_loop original_path)
resolve_if_symlink (suc d) node original_path tree =
    resolve_by (λ t. navigate d tree t true tree) node

-- `navigate` as the source writes it. An empty list of components leaves the loop at once.
pub navigate_lem :
    (d : ℕ) (root : FsNode) (path : Bytes) (follow : Bool) (tree : FsNode)
    → navigate (suc d) root path follow tree
      ≡ walk
          (λ n. resolve_if_symlink (suc d) n path tree)
          (λ n. resolve_if_symlink d n path tree)
          path
          follow
          (components path)
          root
unfolding navigate resolve_if_symlink
navigate_lem zero root path follow tree = refl
navigate_lem (suc d) root path follow tree = refl

abbrev pub Place : Type 0
Place = Result (Bytes × FsNode) VfsError

-- One round of the loop in `resolve_canonical`: what a child adds to the resolved path, and where
-- the walk goes on. `canon` and `nav` are the calls at the next depth.
unfoldable pub canonical_child :
    (Bytes → Result Bytes VfsError) → (Bytes → Found) → Bytes → Bytes → FsNode → Place
canonical_child canon nav resolved name (symlink target _) = do
  t ← vfs_normalize_checked target
  r ← canon t
  c ← nav r
  ok (r, c)
canonical_child canon nav resolved name (file c m t i) = ok (vfs_join resolved name, file c m t i)
canonical_child canon nav resolved name (directory ch m t) =
    ok (vfs_join resolved name, directory ch m t)

unfoldable pub canonical_step :
    (Bytes → Result Bytes VfsError)
    → (Bytes → Found)
    → Bytes
    → Bool
    → Bytes
    → Bytes
    → FsNode
    → Place
canonical_step canon nav path keep name resolved (directory ch _ _) = elim (get name ch) [
  | none ↦ err (not_found path)
  | some child ↦
      if keep
      then ok (vfs_join resolved name, child)
      else canonical_child canon nav resolved name child
]
canonical_step canon nav path keep name resolved _ = err (not_a_directory path)

unfoldable pub canonical_walk :
    (FsNode → Found)
    → (Bytes → Result Bytes VfsError)
    → (Bytes → Found)
    → Bytes
    → Bool
    → List Bytes
    → Bytes
    → FsNode
    → Result Bytes VfsError
canonical_walk here canon nav path follow [] resolved current = ok resolved
canonical_walk here canon nav path follow (name ∷ names) resolved current = do
  dir ← here current
  (r, c) ← canonical_step canon nav path (is_empty names && not follow) name resolved dir
  canonical_walk here canon nav path follow names r c

unfoldable pub resolve_canonical : ℕ → FsNode → Bytes → FsNode → Result Bytes VfsError
resolve_canonical zero root path tree = err (symlink_loop path)
resolve_canonical (suc d) root path tree =
    canonical_walk (λ n. resolve_if_symlink (suc d) n path tree)
      (λ t. resolve_canonical d tree t tree) (λ r. navigate d tree r true tree) path true
      (components path) (slash ∷ []) root

-- `resolve_if_symlink_from_root` and `navigate_readonly` are `resolve_if_symlink` and `navigate`.
unfoldable pub resolve_canonical_from_root : ℕ → FsNode → Bytes → Bool → Result Bytes VfsError
resolve_canonical_from_root zero root path follow = err (symlink_loop path)
resolve_canonical_from_root (suc d) root path follow =
    canonical_walk (λ n. resolve_if_symlink (suc d) n path root)
      (λ t. resolve_canonical_from_root d root t true) (λ r. navigate d root r true root) path
      follow (components path) (slash ∷ []) root

-- `navigate_to_mut`: by names alone. Also the second loop of `navigate_mut`.
unfoldable pub navigate_to : List Bytes → FsNode → Option FsNode
navigate_to [] node = some node
navigate_to (name ∷ names) (directory ch _ _) = elim (get name ch) [
  | none ↦ none
  | some child ↦ navigate_to names child
]
navigate_to (name ∷ names) _ = none
