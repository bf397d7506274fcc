-- ===== src/Vfs/Memory/Update.antt =====
-- src/vfs/memory.rs: a change of one node through its canonical path, as `write_file`, `append_file`
-- and `chmod` make it.
use rust_bash.Prelude.{
  ◌≡◌, ◌≢◌, refl, sym, ap, ap₂, List, [], ◌∷◌, false, some, arith, ◌∙◌, inl, inr, Bool-cases,
}
use rust_bash.Prelude.Bytes.{Bytes, beq, beq_iff}
use rust_bash.Vfs.Node.{FsNode, directory, set_child, is_directory}
use rust_bash.Vfs.Node.Entries.{get-set_child}
use rust_bash.Vfs.Memory.Navigate.{navigate_to}
use rust_bash.Vfs.Memory.Walks.{Entry}
use rust_bash.Vfs.Memory.Canonical.{navigate_to-cons, navigate_to_inv}
use rust_bash.Vfs.Memory.Shape.{SameShape, directories, set_child-SameChildren}
use rust_bash.Vfs.Memory.Operations.Access.{Outcome, modify}

module _ {A : Type 0} (path : Bytes) (f : FsNode → Outcome A) where
  -- One step of the change, below a directory entry.
  modify-Entry :
      (w : Bytes) (names : List Bytes) (node child : FsNode) (e : Entry node w child)
      → modify (w ∷ names) path f node ≡ (
          let r = modify names path f child in
          (directory (set_child w r.0 e.children) e.mode e.mtime, r.1))
  unfolding modify
  modify-Entry w names node child e = rw e.is_dir (rw (e.found, modify))

  -- The result is that of the change of the node.
  pub modify-result :
      (names : List Bytes) (node n : FsNode)
      → navigate_to names node ≡ some n
      → (modify names path f node).1 ≡ (f n).1
  modify-result [] node n leads =
      let same : node ≡ n = unfold navigate_to in (ground arith) in unfold modify in (rw same refl)
  modify-result (w ∷ names) node n leads =
      let (child, e, rest) = navigate_to_inv w names node leads in
      ap (λ o. o.1) (modify-Entry w names node child e) ∙ modify-result names child n rest

  set_child-Entry :
      (w : Bytes) (node child new : FsNode) (e : Entry node w child)
      → Entry (directory (set_child w new e.children) e.mode e.mtime) w new
  set_child-Entry w node child new e = record {
    children = set_child w new e.children;
    mode = e.mode;
    mtime = e.mtime;
    is_dir = refl;
    found = get-set_child w w new e.children (λ p. ground arith) ∙ ground (arith, beq_iff w w);
  }

  pub navigate_to-modify :
      (names : List Bytes) (node n : FsNode)
      → navigate_to names node ≡ some n
      → navigate_to names (modify names path f node).0 ≡ some (f n).0
  navigate_to-modify [] node n leads =
      let same : node ≡ n = unfold navigate_to in (ground arith) in
      unfold modify navigate_to in (rw same refl)
  navigate_to-modify (w ∷ names) node n leads =
      let (child, e, rest) = navigate_to_inv w names node leads in
      rw (modify-Entry w names node child e) (
        navigate_to-cons w names _ _ (set_child-Entry w node child (modify names path f child).0 e)
        ∙ navigate_to-modify names child n rest)

  -- A change that keeps the node's shape keeps the tree's.
  pub modify-SameShape :
      (names : List Bytes) (node n : FsNode)
      → navigate_to names node ≡ some n
      → SameShape n (f n).0
      → SameShape node (modify names path f node).0
  modify-SameShape [] node n leads s =
      let same : node ≡ n = unfold navigate_to in (ground arith) in unfold modify in (rw same s)
  modify-SameShape (w ∷ names) node n leads s =
      let (child, e, rest) = navigate_to_inv w names node leads in
      rw (modify-Entry w names node child e, e.is_dir)
        (directories (
          set_child-SameChildren w _ e.children (λ u found.
            let same : u ≡ child = cc (found, e.found) in
            rw same (modify-SameShape names child n rest s))))

  -- A node at other names, with neither of the two nodes a directory, is not touched.
  pub modify-other :
      (names others : List Bytes) (node n m : FsNode)
      → navigate_to names node ≡ some n
      → navigate_to others node ≡ some m
      → is_directory n ≡ false
      → is_directory m ≡ false
      → names ≢ others
      → navigate_to others (modify names path f node).0 ≡ some m
  modify-other [] [] node n m h k dn dm ne = absurd (ne refl)
  modify-other [] (v ∷ others) node n m h k dn dm ne =
      let (child, e, rest) = navigate_to_inv v others node k in
      let same : node ≡ n = unfold navigate_to in (ground arith) in ground (arith, e.is_dir)
  modify-other (w ∷ names) [] node n m h k dn dm ne =
      let (child, e, rest) = navigate_to_inv w names node h in
      let same : node ≡ m = unfold navigate_to in (ground arith) in ground (arith, e.is_dir)
  modify-other (w ∷ names) (v ∷ others) node n m h k dn dm ne =
      let (child, e, rest) = navigate_to_inv w names node h in
      let (other, g, onward) = navigate_to_inv v others node k in
      let same : g.children ≡ e.children = ground (arith, e.is_dir, g.is_dir) in
      let out = (modify names path f child).0 in
      rw (modify-Entry w names node child e) (elim (Bool-cases (beq v w)) [
        | inl eq ↦
            let vw : v ≡ w = (beq_iff v w).0 eq in
            let both : other ≡ child = cc (g.found, e.found, same, vw) in
            rw vw (
              navigate_to-cons w others _ _ (set_child-Entry w node child out e)
              ∙ modify-other names others child n m rest (rw both at onward) dn dm
                  (λ p. ne (ap₂ ◌∷◌ (sym vw) p)))
        | inr neq ↦
            navigate_to-cons v others _ other (record {
              children = set_child w out e.children;
              mode = e.mode;
              mtime = e.mtime;
              is_dir = refl;
              found =
                  get-set_child v w out e.children (λ p. ground (arith, e.found))
                  ∙ rw neq (rw (← same) g.found);
            })
            ∙ onward
      ])
