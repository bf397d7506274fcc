-- ===== src/Vfs/Memory/Shape.antt =====
-- src/vfs/memory.rs: what navigation sees of a tree, its names and links.
use rust_bash.Prelude.{
  ◌≡◌, refl, ℕ, zero, suc, List, [], ◌∷◌, Bool, true, false, Option, none, some, Result, ok, err,
  ◌>>=◌, inl, inr, if◌then◌else◌, Bool-cases,
}
use rust_bash.Prelude.Bytes.{Bytes, beq}
use rust_bash.Vfs.Path.{
  slash, vfs_join, VfsError, not_found, components, vfs_normalize_checked, symlink_loop,
}
use rust_bash.Vfs.Node.{
  FsNode, file, directory, symlink, Time, Children, leaf, entry, get, set_child,
}
use rust_bash.Vfs.Memory.Navigate.{
  Found, Place, resolve_by, descend, walk, navigate, resolve_if_symlink, canonical_child,
  canonical_step, canonical_walk, resolve_canonical_from_root,
}

mutual
  pub data SameShape : FsNode → FsNode → Type 0 where
    files :
        {c c' : Bytes} {m m' : ℕ} {t t' : Time} {i i' : ℕ}
        → SameShape (file c m t i) (file c' m' t' i')
    directories :
        {ch ch' : Children} {m m' : ℕ} {t t' : Time}
        → SameChildren ch ch'
        → SameShape (directory ch m t) (directory ch' m' t')
    links : {target : Bytes} {t t' : Time} → SameShape (symlink target t) (symlink target t')

  pub data SameChildren : Children → Children → Type 0 where
    leaves : SameChildren leaf leaf
    entries :
        {name : Bytes} {v v' : FsNode} {rest rest' : Children}
        → SameShape v v'
        → SameChildren rest rest'
        → SameChildren (entry name v rest) (entry name v' rest')

mutual
  pub SameShape-refl : (n : FsNode) → SameShape n n
  SameShape-refl (file _ _ _ _) = files
  SameShape-refl (directory ch _ _) = directories (SameChildren-refl ch)
  SameShape-refl (symlink _ _) = links

  SameChildren-refl : (ch : Children) → SameChildren ch ch
  SameChildren-refl leaf = leaves
  SameChildren-refl (entry name v rest) = entries (SameShape-refl v) (SameChildren-refl rest)

pub set_child-SameChildren :
    (name : Bytes) (v : FsNode) (ch : Children)
    → ((w : FsNode) → get name ch ≡ some w → SameShape w v)
    → SameChildren ch (set_child name v ch)
unfolding get set_child
set_child-SameChildren name v leaf h = leaves
set_child-SameChildren name v (entry k w rest) h = elim (Bool-cases (beq name k)) [
  | inl e ↦ rw e (entries (h w (rw e)) (SameChildren-refl rest))
  | inr e ↦
      rw e (entries (SameShape-refl w) (set_child-SameChildren name v rest (λ u p. h u (rw e p))))
]

-- Two lookups, or two walks, that come out alike.
pub data SameOption : Option FsNode → Option FsNode → Type 0 where
  both_none : SameOption none none
  both_some : {n n' : FsNode} → SameShape n n' → SameOption (some n) (some n')

pub data SameFound : Found → Found → Type 0 where
  both_ok : {n n' : FsNode} → SameShape n n' → SameFound (ok n) (ok n')
  both_err : {e : VfsError} → SameFound (err e) (err e)

get-SameOption :
    (name : Bytes) {ch ch' : Children}
    → SameChildren ch ch'
    → SameOption (get name ch) (get name ch')
unfolding get
get-SameOption name leaves = both_none
get-SameOption name (entries {name = k} s r) = elim (Bool-cases (beq name k)) [
  | inl e ↦ rw e (both_some s)
  | inr e ↦ rw e (get-SameOption name r)
]

-- Functions that come out alike on nodes of one shape.
abbrev SameWalk : (FsNode → Found) → (FsNode → Found) → Type 0
SameWalk f f' = (n n' : FsNode) → SameShape n n' → SameFound (f n) (f' n')

resolve_by-SameWalk :
    (nav nav' : Bytes → Found)
    → ((t : Bytes) → SameFound (nav t) (nav' t))
    → SameWalk (resolve_by nav) (resolve_by nav')
resolve_by-SameWalk nav nav' h n n' files = both_ok files
resolve_by-SameWalk nav nav' h n n' (directories s) = both_ok (directories s)
resolve_by-SameWalk nav nav' h n n' (links {target}) = go (vfs_normalize_checked target)
  where
    go : (r : Result Bytes VfsError) → SameFound (r >>= λ t. nav t) (r >>= λ t. nav' t)
    go (ok t) = h t
    go (err e) = both_err

descend-SameWalk :
    (below below' : FsNode → Found) (path : Bytes) (keep : Bool) (name : Bytes)
    → SameWalk below below'
    → SameWalk (descend below path keep name) (descend below' path keep name)
unfolding descend
descend-SameWalk below below' path keep name h n n' files = both_err
descend-SameWalk below below' path keep name h n n' links = both_err
descend-SameWalk below below' path keep name h n n' (directories {ch} {ch'} s) =
    go (get name ch) (get name ch') (get-SameOption name s) keep
  where
    go :
        (o o' : Option FsNode)
        → SameOption o o'
        → (keep : Bool)
        → SameFound
            (elim o [ none ↦ err (not_found path) | some c ↦ if keep then ok c else below c ])
            (elim o' [ none ↦ err (not_found path) | some c ↦ if keep then ok c else below' c ])
    go o o' both_none keep = both_err
    go o o' (both_some s) true = both_ok s
    go o o' (both_some {n = c} {n' = c'} s) false = h c c' s

SameFound-bind :
    (r r' : Found) (k k' : FsNode → Found)
    → SameFound r r'
    → SameWalk k k'
    → SameFound (r >>= k) (r' >>= k')
SameFound-bind r r' k k' (both_ok {n} {n'} s) h = h n n' s
SameFound-bind r r' k k' both_err h = both_err

walk-SameWalk :
    (here here' below below' : FsNode → Found) (path : Bytes) (follow : Bool)
    → SameWalk here here'
    → SameWalk below below'
    → (names : List Bytes)
    → SameWalk (walk here below path follow names) (walk here' below' path follow names)
unfolding walk
walk-SameWalk here here' below below' path follow h b [] n n' s = both_ok s
walk-SameWalk here here' below below' path follow h b (w ∷ names) n n' s =
    SameFound-bind (here n) (here' n') _ _ (h n n' s) (λ dir dir' sd.
      SameFound-bind _ _ _ _ (descend-SameWalk below below' path _ w b dir dir' sd)
        (walk-SameWalk here here' below below' path follow h b names))

-- Trees of one shape are navigated alike.
pub navigate-SameFound :
    (d : ℕ) (root root' : FsNode) (path : Bytes) (follow : Bool) (tree tree' : FsNode)
    → SameShape root root'
    → SameShape tree tree'
    → SameFound (navigate d root path follow tree) (navigate d root' path follow tree')
unfolding navigate
navigate-SameFound zero root root' path follow tree tree' r s = both_err
navigate-SameFound (suc zero) root root' path follow tree tree' r s =
    walk-SameWalk _ _ (λ _. err (symlink_loop path)) (λ _. err (symlink_loop path)) path follow
      (resolve_by-SameWalk _ _ (λ t. both_err)) (λ n n' q. both_err) (components path) root root' r
navigate-SameFound (suc (suc d)) root root' path follow tree tree' r s =
    walk-SameWalk _ _ _ _ path follow
      (resolve_by-SameWalk _ _ (λ t. navigate-SameFound (suc d) tree tree' t true tree tree' s s))
      (resolve_by-SameWalk _ _ (λ t. navigate-SameFound d tree tree' t true tree tree' s s))
      (components path) root root' r

resolve_if_symlink-SameWalk :
    (d : ℕ) (path : Bytes) (tree tree' : FsNode)
    → SameShape tree tree'
    → SameWalk (λ n. resolve_if_symlink d n path tree) (λ n. resolve_if_symlink d n path tree')
unfolding resolve_if_symlink
resolve_if_symlink-SameWalk zero path tree tree' s n n' r = both_err
resolve_if_symlink-SameWalk (suc d) path tree tree' s n n' r =
    resolve_by-SameWalk _ _ (λ t. navigate-SameFound d tree tree' t true tree tree' s s) n n' r

data SamePlace : Place → Place → Type 0 where
  place_ok : {p : Bytes} {n n' : FsNode} → SameShape n n' → SamePlace (ok (p, n)) (ok (p, n'))
  place_err : {e : VfsError} → SamePlace (err e) (err e)

SameFound-bind_eq :
    (f f' : Found) (k k' : FsNode → Result Bytes VfsError)
    → SameFound f f'
    → ((n n' : FsNode) → SameShape n n' → k n ≡ k' n')
    → (f >>= k) ≡ (f' >>= k')
SameFound-bind_eq f f' k k' (both_ok {n} {n'} s) h = h n n' s
SameFound-bind_eq f f' k k' both_err h = refl

SamePlace-bind_eq :
    (f f' : Place) (k k' : Bytes × FsNode → Result Bytes VfsError)
    → SamePlace f f'
    → ((p : Bytes) (n n' : FsNode) → SameShape n n' → k (p, n) ≡ k' (p, n'))
    → (f >>= k) ≡ (f' >>= k')
SamePlace-bind_eq f f' k k' (place_ok {p} {n} {n'} s) h = h p n n' s
SamePlace-bind_eq f f' k k' place_err h = refl

module _ (canon canon' : Bytes → Result Bytes VfsError) (nav nav' : Bytes → Found)
    (same_canon : (t : Bytes) → canon t ≡ canon' t)
    (same_nav : (r : Bytes) → SameFound (nav r) (nav' r)) where
  found-SamePlace :
      (r : Bytes) (f f' : Found)
      → SameFound f f'
      → SamePlace (f >>= λ c. ok (r, c)) (f' >>= λ c. ok (r, c))
  found-SamePlace r f f' (both_ok s) = place_ok s
  found-SamePlace r f f' both_err = place_err

  canonical_child-SamePlace :
      (resolved name : Bytes) (n n' : FsNode)
      → SameShape n n'
      → SamePlace
          (canonical_child canon nav resolved name n)
          (canonical_child canon' nav' resolved name n')
  unfolding canonical_child
  canonical_child-SamePlace resolved name n n' files = place_ok files
  canonical_child-SamePlace resolved name n n' (directories s) = place_ok (directories s)
  canonical_child-SamePlace resolved name n n' (links {target}) = at (vfs_normalize_checked target)
    where
      onward :
          (r : Result Bytes VfsError)
          → SamePlace (r >>= λ r. nav r >>= λ c. ok (r, c)) (r >>= λ r. nav' r >>= λ c. ok (r, c))
      onward (ok r) = found-SamePlace r (nav r) (nav' r) (same_nav r)
      onward (err e) = place_err

      at :
          (n : Result Bytes VfsError)
          → SamePlace
              (n >>= λ t. canon t >>= λ r. nav r >>= λ c. ok (r, c))
              (n >>= λ t. canon' t >>= λ r. nav' r >>= λ c. ok (r, c))
      at (ok t) = rw same_canon (onward (canon' t))
      at (err e) = place_err

  canonical_step-SamePlace :
      (path : Bytes) (keep : Bool) (name resolved : Bytes) (n n' : FsNode)
      → SameShape n n'
      → SamePlace
          (canonical_step canon nav path keep name resolved n)
          (canonical_step canon' nav' path keep name resolved n')
  unfolding canonical_step
  canonical_step-SamePlace path keep name resolved n n' files = place_err
  canonical_step-SamePlace path keep name resolved n n' links = place_err
  canonical_step-SamePlace path keep name resolved n n' (directories {ch} {ch'} s) =
      at (get name ch) (get name ch') (get-SameOption name s) keep
    where
      at :
          (o o' : Option FsNode)
          → SameOption o o'
          → (keep : Bool)
          → SamePlace
              (elim o [
                | none ↦ err (not_found path)
                | some c ↦
                    if keep
                    then ok (vfs_join resolved name, c)
                    else canonical_child canon nav resolved name c
              ])
              (elim o' [
                | none ↦ err (not_found path)
                | some c ↦
                    if keep
                    then ok (vfs_join resolved name, c)
                    else canonical_child canon' nav' resolved name c
              ])
      at o o' both_none keep = place_err
      at o o' (both_some s) true = place_ok s
      at o o' (both_some {n = c} {n' = c'} s) false = canonical_child-SamePlace resolved name c c' s

  canonical_walk_same :
      (here here' : FsNode → Found) (path : Bytes) (follow : Bool)
      → SameWalk here here'
      → (names : List Bytes) (resolved : Bytes) (n n' : FsNode) → SameShape n n'
      → canonical_walk here canon nav path follow names resolved n
        ≡ canonical_walk here' canon' nav' path follow names resolved n'
  unfolding canonical_walk
  canonical_walk_same here here' path follow h [] resolved n n' s = refl
  canonical_walk_same here here' path follow h (w ∷ names) resolved n n' s =
      SameFound-bind_eq (here n) (here' n') _ _ (h n n' s) (λ dir dir' sd.
        SamePlace-bind_eq _ _ _ _ (canonical_step-SamePlace path _ w resolved dir dir' sd)
          (canonical_walk_same here here' path follow h names))

-- Trees of one shape have the same canonical paths.
pub resolve_canonical_from_root-SameShape :
    (d : ℕ) (tree tree' : FsNode) (path : Bytes) (follow : Bool)
    → SameShape tree tree'
    → resolve_canonical_from_root d tree path follow
      ≡ resolve_canonical_from_root d tree' path follow
unfolding resolve_canonical_from_root
resolve_canonical_from_root-SameShape zero tree tree' path follow s = refl
resolve_canonical_from_root-SameShape (suc d) tree tree' path follow s =
    canonical_walk_same _ _ _ _ (λ t. resolve_canonical_from_root-SameShape d tree tree' t true s)
      (λ r. navigate-SameFound d tree tree' r true tree tree' s s) _ _ path follow
      (resolve_if_symlink-SameWalk (suc d) path tree tree' s) (components path) (slash ∷ []) tree
      tree' s
