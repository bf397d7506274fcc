-- ===== src/Vfs/Memory/Walks.antt =====
-- One step of the walks of src/vfs/memory.rs: what a walk that succeeds has found on its way.
use rust_bash.Prelude.{
  ◌≡◌, refl, ℕ, zero, suc, List, ◌∷◌, Bool, true, false, some, Option-cases, inl, inr, ◌&&◌, not,
  Result, ok, >>=-eq-ok, arith,
}
use rust_bash.Prelude.Bytes.{Bytes}
use rust_bash.Vfs.Path.{VfsError, is_empty}
use rust_bash.Vfs.Node.{FsNode, file, directory, symlink, Time, Children, get, is_symlink}
use rust_bash.Vfs.Memory.Navigate.{
  Found, descend, walk, resolve_if_symlink, canonical_child, canonical_step, canonical_walk,
}

-- The directory entry that a step went through.
pub record Entry (node : FsNode) (name : Bytes) (child : FsNode) : Type 0 where
  pub children : Children
  pub mode : ℕ
  pub mtime : Time
  pub is_dir : node ≡ directory children mode mtime
  pub found : get name children ≡ some child

followed_test : (b : Bool) → (b && not true) ≡ false
followed_test true = refl
followed_test false = refl

descend_inv :
    (below : FsNode → Found) (path name : Bytes) (dir : FsNode) {next : FsNode}
    → descend below path false name dir ≡ ok next
    → (child : FsNode) × Entry dir name child × (below child ≡ ok next)
unfolding descend
descend_inv below path name (directory ch m t) h = elim (Option-cases (get name ch)) [
  | inl e ↦ ground arith
  | inr s ↦ (
    s.0,
    record { children = ch; mode = m; mtime = t; is_dir = refl; found = s.1 },
    rw (s.1, descend) at h,
  )
]
descend_inv below path name (file _ _ _ _) h = cc
descend_inv below path name (symlink _ _) h = cc

-- A successful round of `navigate`'s loop, links followed.
pub record Round (here below : FsNode → Found) (name : Bytes) (current : FsNode) : Type 0 where
  pub dir : FsNode
  pub child : FsNode
  pub next : FsNode
  pub resolved : here current ≡ ok dir
  pub through : Entry dir name child
  pub onward : below child ≡ ok next

pub walk_inv :
    (here below : FsNode → Found) (path name : Bytes) (names : List Bytes) (current : FsNode)
    {n : FsNode}
    → walk here below path true (name ∷ names) current ≡ ok n
    → (r : Round here below name current) × (walk here below path true names r.next ≡ ok n)
unfolding walk
walk_inv here below path name names current h =
    let (dir, p, h1) = >>=-eq-ok (here current) _ h in
    let h2 = rw (followed_test (is_empty names)) at h1 in
    let (next, q, h3) = >>=-eq-ok (descend below path false name dir) _ h2 in
    let (child, through, onward) = descend_inv below path name dir q in
    (
      record {
        dir = dir;
        child = child;
        next = next;
        resolved = p;
        through = through;
        onward = onward;
      },
      h3,
    )

canonical_step_inv :
    (canon : Bytes → Result Bytes VfsError) (nav : Bytes → Found) (path name resolved : Bytes)
    (dir : FsNode) {place : Bytes × FsNode}
    → canonical_step canon nav path false name resolved dir ≡ ok place
    → (child : FsNode) × Entry dir name child
      × (canonical_child canon nav resolved name child ≡ ok place)
unfolding canonical_step
canonical_step_inv canon nav path name resolved (directory ch m t) h =
    elim (Option-cases (get name ch)) [
      | inl e ↦ ground arith
      | inr s ↦ (
        s.0,
        record { children = ch; mode = m; mtime = t; is_dir = refl; found = s.1 },
        rw (s.1, canonical_step) at h,
      )
    ]
canonical_step_inv canon nav path name resolved (file _ _ _ _) h = cc
canonical_step_inv canon nav path name resolved (symlink _ _) h = cc

-- A successful round of the loop of `resolve_canonical`.
pub record CanonicalRound (here : FsNode → Found) (canon : Bytes → Result Bytes VfsError)
    (nav : Bytes → Found) (name resolved : Bytes) (current : FsNode) : Type 0 where
  pub dir : FsNode
  pub child : FsNode
  pub path : Bytes
  pub next : FsNode
  pub reached : here current ≡ ok dir
  pub through : Entry dir name child
  pub onward : canonical_child canon nav resolved name child ≡ ok (path, next)

pub canonical_walk_inv :
    (here : FsNode → Found) (canon : Bytes → Result Bytes VfsError) (nav : Bytes → Found)
    (path name : Bytes) (names : List Bytes) (resolved : Bytes) (current : FsNode) {c : Bytes}
    → canonical_walk here canon nav path true (name ∷ names) resolved current ≡ ok c
    → (r : CanonicalRound here canon nav name resolved current) × (canonical_walk here canon nav
          path true names r.path r.next
        ≡ ok c)
unfolding canonical_walk
canonical_walk_inv here canon nav path name names resolved current h =
    let (dir, p, h1) = >>=-eq-ok (here current) _ h in
    let h2 = rw (followed_test (is_empty names)) at h1 in
    let (place, q, h3) = >>=-eq-ok (canonical_step canon nav path false name resolved dir) _ h2 in
    let (child, through, onward) = canonical_step_inv canon nav path name resolved dir q in
    (
      record {
        dir = dir;
        child = child;
        path = place.0;
        next = place.1;
        reached = p;
        through = through;
        onward = onward;
      },
      h3,
    )

-- A node that is no link resolves to itself.
pub resolve_if_symlink_self :
    (d : ℕ) (n : FsNode) (path : Bytes) (tree : FsNode) {m : FsNode}
    → is_symlink n ≡ false
    → resolve_if_symlink d n path tree ≡ ok m
    → m ≡ n
unfolding resolve_if_symlink
resolve_if_symlink_self zero n path tree k h = cc
resolve_if_symlink_self (suc d) (file _ _ _ _) path tree k h = cc
resolve_if_symlink_self (suc d) (directory _ _ _) path tree k h = cc
resolve_if_symlink_self (suc d) (symlink _ _) path tree k h = cc

pub resolve_if_symlink_ok :
    (d : ℕ) (n : FsNode) (path : Bytes) (tree : FsNode)
    → is_symlink n ≡ false
    → resolve_if_symlink (suc d) n path tree ≡ ok n
unfolding resolve_if_symlink
resolve_if_symlink_ok d (file _ _ _ _) path tree k = refl
resolve_if_symlink_ok d (directory _ _ _) path tree k = refl
resolve_if_symlink_ok d (symlink _ _) path tree k = cc

descend-Entry :
    (below : FsNode → Found) (path name : Bytes) (dir child : FsNode)
    → Entry dir name child
    → descend below path false name dir ≡ below child
unfolding descend
descend-Entry below path name dir child e = rw e.is_dir (rw (e.found, descend))

pub walk-cons :
    (here below : FsNode → Found) (path name : Bytes) (names : List Bytes)
    (current dir child next : FsNode)
    → here current ≡ ok dir
    → Entry dir name child
    → below child ≡ ok next
    → walk here below path true (name ∷ names) current ≡ walk here below path true names next
unfolding walk
walk-cons here below path name names current dir child next p e q =
    rw p
      (rw (followed_test (is_empty names)) (rw (descend-Entry below path name dir child e) (rw q)))

canonical_step-Entry :
    (canon : Bytes → Result Bytes VfsError) (nav : Bytes → Found) (path name resolved : Bytes)
    (dir child : FsNode)
    → Entry dir name child
    → canonical_step canon nav path false name resolved dir
      ≡ canonical_child canon nav resolved name child
unfolding canonical_step
canonical_step-Entry canon nav path name resolved dir child e =
    rw e.is_dir (rw (e.found, canonical_step))

pub canonical_walk-cons :
    (here : FsNode → Found) (canon : Bytes → Result Bytes VfsError) (nav : Bytes → Found)
    (path name : Bytes) (names : List Bytes) (resolved resolved' : Bytes)
    (current dir child next : FsNode)
    → here current ≡ ok dir
    → Entry dir name child
    → canonical_child canon nav resolved name child ≡ ok (resolved', next)
    → canonical_walk here canon nav path true (name ∷ names) resolved current
      ≡ canonical_walk here canon nav path true names resolved' next
unfolding canonical_walk
canonical_walk-cons here canon nav path name names resolved resolved' current dir child next p e q =
    rw p (
      rw (followed_test (is_empty names))
        (rw (canonical_step-Entry canon nav path name resolved dir child e) (rw q)))
