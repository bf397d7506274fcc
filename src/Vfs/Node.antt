-- ===== src/Vfs/Node.antt =====
-- src/vfs/mod.rs: `FsNode`, and the `BTreeMap` of a directory's children as a list of entries in
-- the order of their names, which is the order in which the map is iterated.
pub mod Order
pub mod Entries
use Prim.Native.Nat.{compare, Ordering}
use rust_bash.Prelude.{
  ℕ, zero, suc, List, [], ◌∷◌, Bool, true, false, Option, none, some, if◌then◌else◌,
}
use rust_bash.Prelude.Bytes.{Bytes, beq}

-- A `SystemTime`, which is only stored and passed on.
abbrev pub Time : Type 0
Time = ℕ

mutual
  pub data FsNode : Type 0 where
    -- content, mode, mtime, file_id
    file : Bytes → ℕ → Time → ℕ → FsNode
    -- children, mode, mtime
    directory : Children → ℕ → Time → FsNode
    -- target, mtime
    symlink : Bytes → Time → FsNode

  pub data Children : Type 0 where
    leaf : Children
    entry : Bytes → FsNode → Children → Children

-- `Ord` for `String`: bytewise, a prefix first.
unfoldable pub cmp : Bytes → Bytes → Ordering
cmp [] [] = Ordering.eq
cmp [] (y ∷ ys) = Ordering.lt
cmp (x ∷ xs) [] = Ordering.gt
cmp (x ∷ xs) (y ∷ ys) = elim (compare x y) [
  | Ordering.lt ↦ Ordering.lt
  | Ordering.eq ↦ cmp xs ys
  | Ordering.gt ↦ Ordering.gt
]

-- `children.get(name)`
unfoldable pub get : Bytes → Children → Option FsNode
get name leaf = none
get name (entry k v rest) = if beq name k then some v else get name rest

abbrev pub contains_key : Bytes → Children → Bool
contains_key name ch = elim (get name ch) [ none ↦ false | some _ ↦ true ]

-- `children.insert(name, node)`
unfoldable pub insert : Bytes → FsNode → Children → Children
insert name v leaf = entry name v leaf
insert name v (entry k w rest) = elim (cmp name k) [
  | Ordering.lt ↦ entry name v (entry k w rest)
  | Ordering.eq ↦ entry name v rest
  | Ordering.gt ↦ entry k w (insert name v rest)
]

-- `children.remove(name)`: a map has at most one entry for a name.
unfoldable pub remove : Bytes → Children → Children
remove name leaf = leaf
remove name (entry k v rest) =
    let rest' = remove name rest in if beq name k then rest' else entry k v rest'

-- A write through `children.get_mut(name)`, where the name is there.
unfoldable pub set_child : Bytes → FsNode → Children → Children
set_child name v leaf = leaf
set_child name v (entry k w rest) =
    if beq name k then entry k v rest else entry k w (set_child name v rest)

abbrev pub no_children : Children → Bool
no_children leaf = true
no_children (entry _ _ _) = false

abbrev pub is_directory : FsNode → Bool
is_directory (directory _ _ _) = true
is_directory _ = false

abbrev pub is_symlink : FsNode → Bool
is_symlink (symlink _ _) = true
is_symlink _ = false
