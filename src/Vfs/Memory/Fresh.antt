-- ===== src/Vfs/Memory/Fresh.antt =====
-- src/vfs/memory.rs: `next_file_id` and the ids in the tree.
use rust_bash.Prelude.{ℕ, ◌≤◌, ◌<◌, arith}
use rust_bash.Prelude.Bytes.{Bytes}
use rust_bash.Vfs.Node.{FsNode, file, directory, symlink, Time, Children, leaf, entry}
use rust_bash.Vfs.Memory.Operations.Files.{max_id, max_child_id, next_file_id}

-- A file with this id is somewhere in the tree.
mutual
  pub data HasId : ℕ → FsNode → Type 0 where
    itself : {c : Bytes} {m : ℕ} {t : Time} {i : ℕ} → HasId i (file c m t i)
    below :
        {ch : Children} {m : ℕ} {t : Time} {i : ℕ} → ChildHasId i ch → HasId i (directory ch m t)

  pub data ChildHasId : ℕ → Children → Type 0 where
    first :
        {name : Bytes} {v : FsNode} {rest : Children} {i : ℕ}
        → HasId i v
        → ChildHasId i (entry name v rest)
    later :
        {name : Bytes} {v : FsNode} {rest : Children} {i : ℕ}
        → ChildHasId i rest
        → ChildHasId i (entry name v rest)

mutual
  unfolding max_id max_child_id

  max_id_grows : (n : FsNode) (m : ℕ) → m ≤ max_id n m
  max_id_grows (file _ _ _ i) m = omega arith
  max_id_grows (directory ch _ _) m = max_child_id_grows ch m
  max_id_grows (symlink _ _) m = omega arith

  max_child_id_grows : (ch : Children) (m : ℕ) → m ≤ max_child_id ch m
  max_child_id_grows leaf m = omega arith
  max_child_id_grows (entry _ v rest) m =
      omega (arith, max_id_grows v m, max_child_id_grows rest (max_id v m))

mutual
  unfolding max_id max_child_id

  max_id_bound : {i : ℕ} (n : FsNode) (m : ℕ) → HasId i n → i ≤ max_id n m
  max_id_bound (file _ _ _ i) m itself = omega arith
  max_id_bound (directory ch _ _) m (below h) = max_child_id_bound ch m h
  max_id_bound (symlink _ _) m h = elim h [ ]

  max_child_id_bound : {i : ℕ} (ch : Children) (m : ℕ) → ChildHasId i ch → i ≤ max_child_id ch m
  max_child_id_bound leaf m h = elim h [ ]
  max_child_id_bound (entry _ v rest) m (first h) =
      omega (arith, max_id_bound v m h, max_child_id_grows rest (max_id v m))
  max_child_id_bound (entry _ v rest) m (later h) = max_child_id_bound rest (max_id v m) h

-- Every id in the tree is below the one that `next_file_id` gives, so a new file shares its id with none.
pub next_file_id_fresh : (tree : FsNode) (i : ℕ) → HasId i tree → i < next_file_id tree
unfolding next_file_id
next_file_id_fresh tree i h = omega (arith, max_id_bound tree 0 h)
