-- ===== src/Vfs/Memory/Success.antt =====
-- src/vfs/memory.rs: which calls of `navigate` and `resolve_canonical_from_root` succeed.
use rust_bash.Prelude.{
  ◌≡◌, refl, ℕ, zero, suc, ◌≤◌, ◌-◌, List, [], ◌∷◌, Bool, true, false, some, Result, ok, >>=-eq-ok,
  arith, ◌∙◌,
}
use rust_bash.Prelude.Bytes.{Bytes}
use rust_bash.Vfs.Path.{slash, VfsError, components, vfs_normalize_checked, vfs_join}
use rust_bash.Vfs.Path.Names.{Names, components-render}
use rust_bash.Vfs.Path.Laws.{vfs_normalize_checked-components}
use rust_bash.Vfs.Node.{FsNode, file, directory, symlink, is_symlink, is_directory}
use rust_bash.Vfs.Memory.Navigate.{
  Found, walk, navigate, navigate_lem, resolve_if_symlink, canonical_child, canonical_walk,
  navigate_to, resolve_canonical_from_root,
}
use rust_bash.Vfs.Memory.Walks.{
  walk_inv, walk-cons, canonical_walk-cons, resolve_if_symlink_self, resolve_if_symlink_ok,
}
use rust_bash.Vfs.Memory.Canonical.{
  Direct, navigate_to_inv, no_link_along, directory-no_link, resolve_canonical_from_root-Direct,
}
use rust_bash.Vfs.Memory.Agreement.{Direct-unique, navigate-resolve_canonical, no_link_of_directory}

walk-direct_ok :
    (here below : FsNode → Found)
    → ((x : FsNode) → is_symlink x ≡ false → here x ≡ ok x)
    → ((x : FsNode) → is_symlink x ≡ false → below x ≡ ok x)
    → (path : Bytes) (names : List Bytes) (current n : FsNode) → navigate_to names current ≡ some n
    → is_symlink n ≡ false
    → walk here below path true names current ≡ ok n
walk-direct_ok here below self self' path [] current n leads k =
    unfold navigate_to walk in (ground arith)
walk-direct_ok here below self self' path (w ∷ names) current n leads k =
    let (child, through, rest) = navigate_to_inv w names current leads in
    walk-cons here below path w names current current child child
      (self current (directory-no_link through)) through
      (self' child (no_link_along names child n rest k))
    ∙ walk-direct_ok here below self self' path names child n rest k

-- A path without links needs a depth of two, however long it is.
pub navigate-Direct_ok :
    (d : ℕ) (tree : FsNode) (path : Bytes) (n : FsNode)
    → Direct tree path n
    → navigate (suc (suc d)) tree path true tree ≡ ok n
navigate-Direct_ok d tree path n p =
    rw (navigate_lem, p.rendered, components-render p.names p.valid)
      (walk-direct_ok (λ x. resolve_if_symlink (suc (suc d)) x _ tree)
        (λ x. resolve_if_symlink (suc d) x _ tree) (λ x. resolve_if_symlink_ok (suc d) x _ tree)
        (λ x. resolve_if_symlink_ok d x _ tree) _ p.names tree n p.leads p.no_link)

abbrev Succeeds : (FsNode → Found) → (Bytes → Result Bytes VfsError) → (Bytes → Found) → Type 0
Succeeds below canon nav =
    (resolved name : Bytes) (child next : FsNode)
    → below child ≡ ok next
    → (path : Bytes) × (canonical_child canon nav resolved name child ≡ ok (path, next))
      × (is_symlink next ≡ false)

walk-Succeeds :
    (here below here' : FsNode → Found) (canon : Bytes → Result Bytes VfsError)
    (nav : Bytes → Found)
    → ((x y : FsNode) → is_symlink x ≡ false → here x ≡ ok y → y ≡ x)
    → ((x : FsNode) → is_symlink x ≡ false → here' x ≡ ok x)
    → Succeeds below canon nav
    → (path path' : Bytes) (names : List Bytes) (resolved : Bytes) (current n : FsNode)
    → is_symlink current ≡ false
    → walk here below path true names current ≡ ok n
    → (c : Bytes) × (canonical_walk here' canon nav path' true names resolved current ≡ ok c)
walk-Succeeds here below here' canon nav self self' goes path path' [] resolved current n k h =
    (resolved, unfold canonical_walk in refl)
walk-Succeeds here below here' canon nav self self' goes path path' (w ∷ names) resolved current n k
      h =
    let (r, onward) = walk_inv here below path w names current h in
    let e : r.dir ≡ current = self current r.dir k r.resolved in
    let (p, step, k') = goes resolved w r.child r.next r.onward in
    let (c, rest) =
      walk-Succeeds here below here' canon nav self self' goes path path' names p r.next n k'
        onward in
    (
      c,
      canonical_walk-cons here' canon nav path' w names resolved p current current r.child r.next
            (self' current k) (rw e at r.through) step
          ∙ rest,
    )

navigate-pos :
    (d : ℕ) (root : FsNode) (path : Bytes) (follow : Bool) (tree : FsNode) {n : FsNode}
    → navigate d root path follow tree ≡ ok n
    → 1 ≤ d
unfolding navigate
navigate-pos zero root path follow tree h = cc
navigate-pos (suc d) root path follow tree h = omega arith

module _ (tree : FsNode) (is_dir : is_directory tree ≡ true) (d' : ℕ) where
  link-Succeeds :
      (e : ℕ) (original : Bytes)
      → suc e ≤ d'
      → ((t : Bytes) (m : FsNode)
          → Names (components t)
          → navigate e tree t true tree ≡ ok m
          → (c : Bytes) × (resolve_canonical_from_root d' tree t true ≡ ok c))
      → Succeeds
          (λ x. resolve_if_symlink (suc e) x original tree)
          (λ t. resolve_canonical_from_root d' tree t true)
          (λ r. navigate d' tree r true tree)
  unfolding canonical_child resolve_if_symlink
  link-Succeeds e original le ih resolved name (file _ _ _ _) next h =
      (vfs_join resolved name, ground arith, ground arith)
  link-Succeeds e original le ih resolved name (directory _ _ _) next h =
      (vfs_join resolved name, ground arith, ground arith)
  link-Succeeds e original le ih resolved name (symlink target _) next h =
      let (t, normal, h1) = >>=-eq-ok (vfs_normalize_checked target) _ h in
      let valid = (vfs_normalize_checked-components target normal).0 in
      let (r, at) = ih t next valid h1 in
      let (m, direct) = resolve_canonical_from_root-Direct d' tree t r is_dir valid at in
      let same : next ≡ m =
        Direct-unique tree r m next direct
          (navigate-resolve_canonical e d' tree t r next is_dir valid h1 at) in
      let deep : d' ≡ suc (suc (d' - 2)) = omega (arith, navigate-pos e tree t true tree h1) in
      let reached : navigate d' tree r true tree ≡ ok next =
        rw (deep, same) (navigate-Direct_ok (d' - 2) tree r m direct) in
      (r, rw normal (rw at (rw reached)), rw same direct.no_link)

zero-Succeeds :
    (tree : FsNode) (original : Bytes) (canon : Bytes → Result Bytes VfsError) (nav : Bytes → Found)
    → Succeeds (λ x. resolve_if_symlink 0 x original tree) canon nav
unfolding resolve_if_symlink
zero-Succeeds tree original canon nav resolved name child next h = absurd (cc h)

-- A normalised path that can be navigated has a canonical form at every depth that is at least as large.
-- The root is a directory.
pub navigate-canonical_ok :
    (d d' : ℕ) (tree : FsNode) (path : Bytes) (n : FsNode)
    → d ≤ d'
    → is_directory tree ≡ true
    → Names (components path)
    → navigate d tree path true tree ≡ ok n
    → (c : Bytes) × (resolve_canonical_from_root d' tree path true ≡ ok c)
unfolding resolve_canonical_from_root
navigate-canonical_ok zero d' tree path n le dir valid h =
    absurd (omega (arith, navigate-pos 0 tree path true tree h))
navigate-canonical_ok (suc d) zero tree path n le dir valid h = absurd (omega arith)
navigate-canonical_ok (suc zero) (suc d') tree path n le dir valid h =
    (walk-Succeeds (λ x. resolve_if_symlink 1 x path tree) (λ x. resolve_if_symlink 0 x path tree)
      (λ x. resolve_if_symlink (suc d') x path tree)
      (λ t. resolve_canonical_from_root d' tree t true) (λ r. navigate d' tree r true tree)
      (λ x y. resolve_if_symlink_self 1 x path tree) (λ x. resolve_if_symlink_ok d' x path tree)
      (zero-Succeeds tree path (λ t. resolve_canonical_from_root d' tree t true)
        (λ r. navigate d' tree r true tree))
      path path (components path) (slash ∷ []) tree n (no_link_of_directory tree dir)
      (rw navigate_lem at h))
navigate-canonical_ok (suc (suc d)) (suc d') tree path n le dir valid h =
    (walk-Succeeds (λ x. resolve_if_symlink (suc (suc d)) x path tree)
      (λ x. resolve_if_symlink (suc d) x path tree) (λ x. resolve_if_symlink (suc d') x path tree)
      (λ t. resolve_canonical_from_root d' tree t true) (λ r. navigate d' tree r true tree)
      (λ x y. resolve_if_symlink_self (suc (suc d)) x path tree)
      (λ x. resolve_if_symlink_ok d' x path tree)
      (link-Succeeds tree dir d' d path (omega arith)
        (λ t m v k. navigate-canonical_ok d d' tree t m (omega arith) dir v k))
      path path (components path) (slash ∷ []) tree n (no_link_of_directory tree dir)
      (rw navigate_lem at h))
