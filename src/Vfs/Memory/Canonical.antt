-- ===== src/Vfs/Memory/Canonical.antt =====
-- src/vfs/memory.rs: what a canonical path is. The loops of `resolve_canonical` and of
-- `resolve_canonical_from_root` keep a pair of a path and a node that belong together.
use rust_bash.Prelude.{
  ◌≡◌, refl, ℕ, zero, suc, List, [], ◌∷◌, true, false, some, push, Option-cases, inl, inr, Result,
  ok, >>=-eq-ok, arith, ◌∙◌, All-push,
}
use rust_bash.Prelude.Bytes.{Bytes}
use rust_bash.Vfs.Path.{slash, VfsError, components, vfs_join, join, vfs_normalize_checked}
use rust_bash.Vfs.Path.Names.{IsName, Names, render, components-render}
use rust_bash.Vfs.Path.Laws.{vfs_join-render, vfs_normalize_checked-components}
use rust_bash.Vfs.Node.{FsNode, file, directory, symlink, get, is_symlink, is_directory}
use rust_bash.Vfs.Memory.Navigate.{
  Found, Place, walk, navigate, navigate_lem, resolve_if_symlink, canonical_child, canonical_walk,
  navigate_to, resolve_canonical_from_root,
}
use rust_bash.Vfs.Memory.Walks.{Entry, walk_inv, canonical_walk_inv, resolve_if_symlink_self}

-- A path without links: its components lead to this node, which is no link.
pub record Direct (tree : FsNode) (path : Bytes) (node : FsNode) : Type 0 where
  pub names : List Bytes
  pub valid : Names names
  pub rendered : path ≡ render names
  pub leads : navigate_to names tree ≡ some node
  pub no_link : is_symlink node ≡ false

pub navigate_to-cons :
    (w : Bytes) (ws : List Bytes) (node child : FsNode)
    → Entry node w child
    → navigate_to (w ∷ ws) node ≡ navigate_to ws child
unfolding navigate_to
navigate_to-cons w ws node child e = rw e.is_dir (rw (e.found, navigate_to))

pub navigate_to_inv :
    (w : Bytes) (ws : List Bytes) (node : FsNode) {n : FsNode}
    → navigate_to (w ∷ ws) node ≡ some n
    → (child : FsNode) × Entry node w child × (navigate_to ws child ≡ some n)
unfolding navigate_to
navigate_to_inv w ws (directory ch m t) h = elim (Option-cases (get w ch)) [
  | inl e ↦ ground arith
  | inr s ↦ (
    s.0,
    record { children = ch; mode = m; mtime = t; is_dir = refl; found = s.1 },
    rw (s.1, navigate_to) at h,
  )
]
navigate_to_inv w ws (file _ _ _ _) h = cc
navigate_to_inv w ws (symlink _ _) h = cc

pub navigate_to-push :
    (ws : List Bytes) (w : Bytes) (tree node child : FsNode)
    → navigate_to ws tree ≡ some node
    → Entry node w child
    → navigate_to (push ws w) tree ≡ some child
navigate_to-push [] w tree node child h e =
    let same : tree ≡ node = unfold navigate_to in (ground arith) in
    rw (same, navigate_to-cons w [] node child e) (unfold navigate_to in refl)
navigate_to-push (v ∷ ws) w tree node child h e =
    let (c, through, rest) = navigate_to_inv v ws tree h in
    navigate_to-cons v (push ws w) tree c through ∙ navigate_to-push ws w c node child rest e

pub directory-no_link :
    {node : FsNode} {w : Bytes} {child : FsNode} → Entry node w child → is_symlink node ≡ false
directory-no_link e = rw e.is_dir

pub Entry-unique :
    (node : FsNode) (w : Bytes) (c d : FsNode) → Entry node w c → Entry node w d → c ≡ d
Entry-unique node w c d e f =
    let same : e.children ≡ f.children = cc (e.is_dir, f.is_dir) in cc (same, e.found, f.found)

pub no_link_along :
    (names : List Bytes) (node n : FsNode)
    → navigate_to names node ≡ some n
    → is_symlink n ≡ false
    → is_symlink node ≡ false
no_link_along [] node n leads h =
    let same : node ≡ n = unfold navigate_to in (ground arith) in rw same h
no_link_along (w ∷ names) node n leads h = directory-no_link (navigate_to_inv w names node leads).1

-- Along a path without links, a walk that resolves links ends where the names alone lead.
walk-direct :
    (here below : FsNode → Found)
    → ((x y : FsNode) → is_symlink x ≡ false → here x ≡ ok y → y ≡ x)
    → ((x y : FsNode) → is_symlink x ≡ false → below x ≡ ok y → y ≡ x)
    → (path : Bytes) (names : List Bytes) (current n c : FsNode)
    → navigate_to names current ≡ some n
    → is_symlink n ≡ false
    → walk here below path true names current ≡ ok c
    → c ≡ n
walk-direct here below self self' path [] current n c leads no_link h =
    unfold navigate_to walk in (ground arith)
walk-direct here below self self' path (w ∷ names) current n c leads no_link h =
    let (child, through, rest) = navigate_to_inv w names current leads in
    let (r, onward) = walk_inv here below path w names current h in
    let stays : r.dir ≡ current = self current r.dir (directory-no_link through) r.resolved in
    let meets : r.child ≡ child =
      Entry-unique current w r.child child (rw stays at r.through) through in
    let goes : r.next ≡ child =
      self' child r.next (no_link_along names child n rest no_link) (rw meets at r.onward) in
    walk-direct here below self self' path names child n c rest no_link (rw goes at onward)

pub navigate-Direct :
    (d : ℕ) (tree : FsNode) (path : Bytes) (node n : FsNode)
    → Direct tree path node
    → navigate d tree path true tree ≡ ok n
    → n ≡ node
navigate-Direct zero tree path node n p h = unfold navigate in cc
navigate-Direct (suc d) tree path node n p h =
    walk-direct (λ x. resolve_if_symlink (suc d) x path tree)
      (λ x. resolve_if_symlink d x path tree)
      (λ x y k. resolve_if_symlink_self (suc d) x path tree k)
      (λ x y k. resolve_if_symlink_self d x path tree k) path p.names tree node n p.leads p.no_link
      (rw (← components-render p.names p.valid, ← p.rendered) (rw navigate_lem at h))

abbrev pub Resolves : FsNode → Bytes → Type 0
Resolves tree c = (n : FsNode) × Direct tree c n

Direct-join :
    (tree : FsNode) (resolved name : Bytes) (current child : FsNode)
    → Direct tree resolved current
    → IsName name
    → Entry current name child
    → is_symlink child ≡ false
    → Direct tree (vfs_join resolved name) child
Direct-join tree resolved name current child p n e k = record {
  names = push p.names name;
  valid = All-push IsName p.names p.valid n;
  rendered = rw p.rendered (vfs_join-render p.names name p.valid n);
  leads = navigate_to-push p.names name tree current child p.leads e;
  no_link = k;
}

place-Direct :
    (tree : FsNode) (a p : Bytes) (x n : FsNode)
    → ◌≡◌ {A = Place} (ok (a, x)) (ok (p, n))
    → Direct tree a x
    → Direct tree p n
place-Direct tree a p x n h j =
    let e : a ≡ p = ground arith in let f : x ≡ n = ground arith in rw (← e, ← f) j

-- The hypotheses are what holds of the calls at the next depth.
module _ (tree : FsNode) (canon : Bytes → Result Bytes VfsError) (nav : Bytes → Found)
    (canon_sound : (t c : Bytes) → Names (components t) → canon t ≡ ok c → Resolves tree c)
    (nav-Direct : (r : Bytes) (m n : FsNode) → Direct tree r m → nav r ≡ ok n → n ≡ m) where
  pub canonical_child-Direct :
      (resolved name : Bytes) (current child : FsNode) (path : Bytes) (next : FsNode)
      → Direct tree resolved current
      → IsName name
      → Entry current name child
      → canonical_child canon nav resolved name child ≡ ok (path, next)
      → Direct tree path next
  unfolding canonical_child
  canonical_child-Direct resolved name current (file c m t i) path next p n e h =
      place-Direct tree _ path _ next h
        (Direct-join tree resolved name current (file c m t i) p n e refl)
  canonical_child-Direct resolved name current (directory ch m t) path next p n e h =
      place-Direct tree _ path _ next h
        (Direct-join tree resolved name current (directory ch m t) p n e refl)
  canonical_child-Direct resolved name current (symlink target t) path next p n e h =
      let (t, normal, h1) = >>=-eq-ok (vfs_normalize_checked target) _ h in
      let (r, at, h2) = >>=-eq-ok (canon t) _ h1 in
      let (c, reached, h3) = >>=-eq-ok (nav r) _ h2 in
      let (m, direct) = canon_sound t r (vfs_normalize_checked-components target normal).0 at in
      let same = nav-Direct r m c direct reached in
      place-Direct tree r path c next h3 (rw same direct)

  canonical_walk-Direct :
      (here : FsNode → Found)
      → ((x y : FsNode) → is_symlink x ≡ false → here x ≡ ok y → y ≡ x)
      → (path : Bytes) (names : List Bytes) (resolved : Bytes) (current : FsNode) {c : Bytes}
      → Names names
      → Direct tree resolved current
      → canonical_walk here canon nav path true names resolved current ≡ ok c
      → Resolves tree c
  canonical_walk-Direct here self path [] resolved current {c} valid p h =
      let same : resolved ≡ c = unfold canonical_walk in (ground arith) in (current, rw (← same) p)
  canonical_walk-Direct here self path (w ∷ names) resolved current (n, valid) p h =
      let (r, onward) = canonical_walk_inv here canon nav path w names resolved current h in
      let stays : r.dir ≡ current = self current r.dir p.no_link r.reached in
      canonical_walk-Direct here self path names r.path r.next valid
        (canonical_child-Direct resolved w current r.child r.path r.next p n (rw stays at r.through)
          r.onward)
        onward

pub root-Direct : (tree : FsNode) → is_directory tree ≡ true → Direct tree (slash ∷ []) tree
root-Direct tree h = record {
  names = [];
  valid = tt;
  rendered = unfold join in refl;
  leads = unfold navigate_to in refl;
  no_link = ground arith;
}

-- The canonical path of a normalised path leads to a node by names alone, and that node is no link. The
-- root is a directory.
pub resolve_canonical_from_root-Direct :
    (d : ℕ) (tree : FsNode) (path c : Bytes)
    → is_directory tree ≡ true
    → Names (components path)
    → resolve_canonical_from_root d tree path true ≡ ok c
    → Resolves tree c
unfolding resolve_canonical_from_root
resolve_canonical_from_root-Direct zero tree path c dir valid h = cc
resolve_canonical_from_root-Direct (suc d) tree path c dir valid h =
    canonical_walk-Direct tree (λ t. resolve_canonical_from_root d tree t true)
      (λ r. navigate d tree r true tree) (λ t r. resolve_canonical_from_root-Direct d tree t r dir)
      (λ r m n. navigate-Direct d tree r m n) (λ x. resolve_if_symlink (suc d) x path tree)
      (λ x y k. resolve_if_symlink_self (suc d) x path tree k) path (components path) (slash ∷ [])
      tree valid (root-Direct tree dir) h
