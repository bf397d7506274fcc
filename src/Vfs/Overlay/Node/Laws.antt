-- ===== src/Vfs/Overlay/Node/Laws.antt =====
-- src/vfs/overlay_tree.rs: the laws of a directory's children.
use rust_bash.Prelude.{◌≡◌, refl, arith, true, none, some, if◌then◌else◌}
use rust_bash.Prelude.Bytes.{Bytes, beq, beq_iff}
use rust_bash.Vfs.Node.Order.{cmp_refl, cmp-eq}
use rust_bash.Vfs.Overlay.Node.{
  UpperNode, UpperChildren, upper_leaf, upper_entry, get_child, insert_child, remove_child,
}

pub get_child-insert_child :
    (j k : Bytes) (v : UpperNode) (ch : UpperChildren)
    → get_child j (insert_child k v ch) ≡ (if beq j k then some v else get_child j ch)
unfolding get_child insert_child
get_child-insert_child j k v upper_leaf = refl
get_child-insert_child j k v (upper_entry i w ch) =
    ground
      (arith, get_child-insert_child j k v ch, cmp-eq k i, cmp_refl k, beq_iff j k, beq_iff j i)

pub get_child-remove_child :
    (j k : Bytes) (ch : UpperChildren)
    → get_child j (remove_child k ch) ≡ (if beq j k then none else get_child j ch)
unfolding get_child remove_child
get_child-remove_child j k upper_leaf = ground arith
get_child-remove_child j k (upper_entry i w ch) =
    ground (arith, get_child-remove_child j k ch, beq_iff k i, beq_iff j k, beq_iff j i)

pub get_child-insert_same :
    (j k : Bytes) (v : UpperNode) (ch : UpperChildren)
    → beq j k ≡ true
    → get_child j (insert_child k v ch) ≡ some v
get_child-insert_same j k v ch h = ground (arith, get_child-insert_child j k v ch)
