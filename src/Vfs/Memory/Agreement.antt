-- ===== src/Vfs/Memory/Agreement.antt =====
-- src/vfs/memory.rs: `navigate` beside `resolve_canonical_from_root`, which spend their depth at
-- different rates.
use rust_bash.Prelude.{
  ◌≡◌, refl, sym, ap, ℕ, zero, suc, List, [], ◌∷◌, true, false, some, Result, ok, err, >>=-eq-ok,
  arith, ◌∙◌,
}
use mathlib.Core.Path.{fun_ext}
use rust_bash.Prelude.Bytes.{Bytes}
use rust_bash.Vfs.Path.{slash, VfsError, components, vfs_normalize_checked, symlink_loop}
use rust_bash.Vfs.Path.Names.{Names, components-render}
use rust_bash.Vfs.Path.Laws.{vfs_normalize_checked-components}
use rust_bash.Vfs.Node.{FsNode, file, directory, symlink, is_symlink, is_directory}
use rust_bash.Vfs.Memory.Navigate.{
  Found, resolve_by, walk, navigate, navigate_lem, resolve_if_symlink, canonical_child,
  canonical_walk, navigate_to, resolve_canonical, resolve_canonical_from_root,
}
use rust_bash.Vfs.Memory.Walks.{walk_inv, canonical_walk_inv, resolve_if_symlink_self}
use rust_bash.Vfs.Memory.Canonical.{
  Direct, Resolves, Entry-unique, navigate-Direct, canonical_child-Direct,
  resolve_canonical_from_root-Direct, root-Direct,
}

abbrev NoLink : Found → Type 0
NoLink (ok n) = is_symlink n ≡ false
NoLink (err _) = Unit

walk-NoLink :
    (here below : FsNode → Found) (path : Bytes)
    → ((x y : FsNode) → below x ≡ ok y → is_symlink y ≡ false)
    → (names : List Bytes) (current n : FsNode) → is_symlink current ≡ false
    → walk here below path true names current ≡ ok n
    → is_symlink n ≡ false
walk-NoLink here below path ih [] current n k h =
    let same : current ≡ n = unfold walk in (ground arith) in rw (← same) k
walk-NoLink here below path ih (w ∷ names) current n k h =
    let (r, onward) = walk_inv here below path w names current h in
    walk-NoLink here below path ih names r.next n (ih r.child r.next r.onward) onward

resolve_by-NoLink :
    (nav : Bytes → Found)
    → ((t : Bytes) (n : FsNode) → nav t ≡ ok n → is_symlink n ≡ false)
    → (x y : FsNode) → resolve_by nav x ≡ ok y
    → is_symlink y ≡ false
resolve_by-NoLink nav ih (file _ _ _ _) y h = ground arith
resolve_by-NoLink nav ih (directory _ _ _) y h = ground arith
resolve_by-NoLink nav ih (symlink target _) y h =
    let (t, normal, h1) = >>=-eq-ok (vfs_normalize_checked target) _ h in ih t y h1

pub no_link_of_directory : (tree : FsNode) → is_directory tree ≡ true → is_symlink tree ≡ false
no_link_of_directory (file _ _ _ _) h = cc
no_link_of_directory (directory _ _ _) h = refl
no_link_of_directory (symlink _ _) h = cc

-- With links followed, navigation never ends at a link, provided that the root is a directory.
pub navigate-no_link :
    (d : ℕ) (tree : FsNode) (path : Bytes) (n : FsNode)
    → is_directory tree ≡ true
    → navigate d tree path true tree ≡ ok n
    → is_symlink n ≡ false
unfolding navigate
navigate-no_link zero tree path n dir h = cc
navigate-no_link (suc zero) tree path n dir h =
    walk-NoLink (resolve_by (λ t. err (symlink_loop t))) (λ _. err (symlink_loop path)) path
      (λ x y k. cc) (components path) tree n (no_link_of_directory tree dir) h
navigate-no_link (suc (suc d)) tree path n dir h =
    walk-NoLink (resolve_by (λ t. navigate (suc d) tree t true tree))
      (resolve_by (λ t. navigate d tree t true tree)) path
      (resolve_by-NoLink (λ t. navigate d tree t true tree)
        (λ t m. navigate-no_link d tree t m dir))
      (components path) tree n (no_link_of_directory tree dir) h

pub Direct-leads :
    (tree : FsNode) (path : Bytes) (node : FsNode)
    → Direct tree path node
    → navigate_to (components path) tree ≡ some node
Direct-leads tree path node p = rw (p.rendered, components-render p.names p.valid) p.leads

pub Direct-unique :
    (tree : FsNode) (path : Bytes) (m n : FsNode)
    → Direct tree path m
    → navigate_to (components path) tree ≡ some n
    → n ≡ m
Direct-unique tree path m n p h = cc (h, Direct-leads tree path m p)

module _ (tree : FsNode) (is_dir : is_directory tree ≡ true) (d' : ℕ) where
  -- The calls that `resolve_canonical_from_root` makes at the next depth.
  canon : Bytes → Result Bytes VfsError
  canon t = resolve_canonical_from_root d' tree t true

  nav : Bytes → Found
  nav r = navigate d' tree r true tree

  canon_sound : (t c : Bytes) → Names (components t) → canon t ≡ ok c → Resolves tree c
  unfolding canon
  canon_sound t c = resolve_canonical_from_root-Direct d' tree t c is_dir

  nav-Direct : (r : Bytes) (m n : FsNode) → Direct tree r m → nav r ≡ ok n → n ≡ m
  unfolding nav
  nav-Direct r m n = navigate-Direct d' tree r m n

  -- Both walks go on at one node.
  Meets : (FsNode → Found) → Type 0
  Meets below =
      (resolved name path : Bytes) (child next c : FsNode)
      → below child ≡ ok next
      → canonical_child canon nav resolved name child ≡ ok (path, c)
      → c ≡ next

  walk-Meets :
      (here below here' : FsNode → Found)
      → ((x y : FsNode) → is_symlink x ≡ false → here x ≡ ok y → y ≡ x)
      → ((x y : FsNode) → is_symlink x ≡ false → here' x ≡ ok y → y ≡ x)
      → Meets below
      → (path path' : Bytes) (names : List Bytes) (resolved : Bytes) (current n : FsNode)
        (c : Bytes)
      → Names names
      → Direct tree resolved current
      → walk here below path true names current ≡ ok n
      → canonical_walk here' canon nav path' true names resolved current ≡ ok c
      → navigate_to (components c) tree ≡ some n
  unfolding Meets
  walk-Meets here below here' self self' meets path path' [] resolved current n c valid p h k =
      let e : current ≡ n = unfold walk in (ground arith) in
      let f : resolved ≡ c = unfold canonical_walk in (ground arith) in
      rw (← e, ← f) (Direct-leads tree resolved current p)
  walk-Meets here below here' self self' meets path path' (w ∷ names) resolved current n c
        (v, valid) p h k =
      let (r, onward) = walk_inv here below path w names current h in
      let (s, onward') = canonical_walk_inv here' canon nav path' w names resolved current k in
      let e : r.dir ≡ current = self current r.dir p.no_link r.resolved in
      let f : s.dir ≡ current = self' current s.dir p.no_link s.reached in
      let same : r.child ≡ s.child =
        Entry-unique current w r.child s.child (rw e at r.through) (rw f at s.through) in
      let joined : s.next ≡ r.next =
        meets resolved w s.path s.child r.next s.next (rw same at r.onward) s.onward in
      walk-Meets here below here' self self' meets path path' names s.path s.next n c valid
        (canonical_child-Direct tree canon nav canon_sound nav-Direct resolved w current s.child
          s.path s.next p v (rw f at s.through) s.onward)
        (rw (← joined) at onward) onward'

  -- A link is followed by `navigate` at depth `e` and by the canonical walk at depth `d'`.
  resolve_if_symlink-Meets :
      (d : ℕ) (original : Bytes)
      → ((e : ℕ) (t r : Bytes) (m : FsNode)
          → d ≡ suc e
          → Names (components t)
          → navigate e tree t true tree ≡ ok m
          → canon t ≡ ok r
          → navigate_to (components r) tree ≡ some m)
      → Meets (λ x. resolve_if_symlink d x original tree)
  unfolding Meets canonical_child resolve_if_symlink
  resolve_if_symlink-Meets zero original ih resolved name path child next c h k = cc
  resolve_if_symlink-Meets (suc e) original ih resolved name path (file _ _ _ _) next c h k =
      ground arith
  resolve_if_symlink-Meets (suc e) original ih resolved name path (directory _ _ _) next c h k =
      ground arith
  resolve_if_symlink-Meets (suc e) original ih resolved name path (symlink target _) next c h k =
      let (t, normal, h1) = >>=-eq-ok (vfs_normalize_checked target) _ h in
      let (t', normal', k1) = >>=-eq-ok (vfs_normalize_checked target) _ k in
      let (r, at, k2) = >>=-eq-ok (canon t') _ k1 in
      let (c', reached, k3) = >>=-eq-ok (nav r) _ k2 in
      let same : t ≡ t' = ground arith in
      let valid = (vfs_normalize_checked-components target normal').0 in
      let (m, direct) = canon_sound t' r valid at in
      let leads = ih e t' r next refl valid (rw same at h1) at in
      let end : c' ≡ c = ground arith in
      sym end ∙ nav-Direct r m c' direct reached ∙ sym (Direct-unique tree r m next direct leads)

-- The node that `navigate` finds is the one to which the canonical path leads by names alone,
-- whatever the two depths, where both calls succeed on one normalised path of a tree whose root is a
-- directory.
pub navigate-resolve_canonical :
    (d d' : ℕ) (tree : FsNode) (path c : Bytes) (n : FsNode)
    → is_directory tree ≡ true
    → Names (components path)
    → navigate d tree path true tree ≡ ok n
    → resolve_canonical_from_root d' tree path true ≡ ok c
    → navigate_to (components c) tree ≡ some n
navigate-resolve_canonical zero d' tree path c n dir valid h k = unfold navigate in cc
navigate-resolve_canonical (suc d) zero tree path c n dir valid h k =
    unfold resolve_canonical_from_root in cc
navigate-resolve_canonical (suc zero) (suc d') tree path c n dir valid h k =
    walk-Meets tree dir d' (λ x. resolve_if_symlink 1 x path tree)
      (λ x. resolve_if_symlink 0 x path tree) (λ x. resolve_if_symlink (suc d') x path tree)
      (λ x y. resolve_if_symlink_self 1 x path tree)
      (λ x y. resolve_if_symlink_self (suc d') x path tree)
      (resolve_if_symlink-Meets tree dir d' 0 path (λ e t r m eq. ground arith)) path path
      (components path) (slash ∷ []) tree n c valid (root-Direct tree dir) (rw navigate_lem at h)
      (unfold resolve_canonical_from_root canon nav in k)
navigate-resolve_canonical (suc (suc d)) (suc d') tree path c n dir valid h k =
    walk-Meets tree dir d' (λ x. resolve_if_symlink (suc (suc d)) x path tree)
      (λ x. resolve_if_symlink (suc d) x path tree) (λ x. resolve_if_symlink (suc d') x path tree)
      (λ x y. resolve_if_symlink_self (suc (suc d)) x path tree)
      (λ x y. resolve_if_symlink_self (suc d') x path tree)
      (resolve_if_symlink-Meets tree dir d' (suc d) path (λ e t r m eq v h' k'.
        let same : e ≡ d = ground arith in
        navigate-resolve_canonical d d' tree t r m dir v (rw same at h') (unfold canon in k')))
      path path (components path) (slash ∷ []) tree n c valid (root-Direct tree dir)
      (rw navigate_lem at h) (unfold resolve_canonical_from_root canon nav in k)

-- `resolve_canonical` and `resolve_canonical_from_root` are one function where links are followed.
pub resolve_canonical-from_root :
    (d : ℕ) (tree : FsNode) (path : Bytes)
    → resolve_canonical d tree path tree ≡ resolve_canonical_from_root d tree path true
unfolding resolve_canonical resolve_canonical_from_root
resolve_canonical-from_root zero tree path = refl
resolve_canonical-from_root (suc d) tree path =
    ap
      (λ (canon : Bytes → Result Bytes VfsError).
        canonical_walk (λ n. resolve_if_symlink (suc d) n path tree) canon
          (λ r. navigate d tree r true tree) path true (components path) (slash ∷ []) tree)
      (fun_ext (λ t. resolve_canonical-from_root d tree t))
