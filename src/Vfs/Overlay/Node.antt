-- ===== src/Vfs/Overlay/Node.antt =====
-- src/vfs/overlay_tree.rs: `UpperNode`, and the `BTreeMap` of its children as a list of entries in the order of
-- their names.
pub mod Laws
use Prim.Native.Nat.{Ordering}
use rust_bash.Prelude.{ℕ, Bool, true, false, Option, none, some, if◌then◌else◌}
use rust_bash.Prelude.Bytes.{Bytes, beq}
use rust_bash.Vfs.Node.{Time, cmp}

mutual
  pub data UpperNode : Type 0 where
    -- content, mode, mtime
    upper_file : Bytes → ℕ → Time → UpperNode
    -- children, mode, mtime
    upper_dir : UpperChildren → ℕ → Time → UpperNode
    -- target, mtime
    upper_symlink : Bytes → Time → UpperNode
    whiteout : UpperNode

  pub data UpperChildren : Type 0 where
    upper_leaf : UpperChildren
    upper_entry : Bytes → UpperNode → UpperChildren → UpperChildren

-- `children.get(name)`
unfoldable pub get_child : Bytes → UpperChildren → Option UpperNode
get_child name upper_leaf = none
get_child name (upper_entry k v rest) = if beq name k then some v else get_child name rest

-- `children.insert(name, node)`
unfoldable pub insert_child : Bytes → UpperNode → UpperChildren → UpperChildren
unfolding cmp
insert_child name v upper_leaf = upper_entry name v upper_leaf
insert_child name v (upper_entry k w rest) = elim (cmp name k) [
  | Ordering.lt ↦ upper_entry name v (upper_entry k w rest)
  | Ordering.eq ↦ upper_entry name v rest
  | Ordering.gt ↦ upper_entry k w (insert_child name v rest)
]

-- `children.remove(name)`: a map has at most one entry for a name.
unfoldable pub remove_child : Bytes → UpperChildren → UpperChildren
remove_child name upper_leaf = upper_leaf
remove_child name (upper_entry k v rest) =
    let rest' = remove_child name rest in if beq name k then rest' else upper_entry k v rest'

abbrev pub is_content : UpperNode → Bool
is_content whiteout = false
is_content _ = true
