-- ===== src/Vfs/Node/Entries.antt =====
-- The laws of a directory's children, a `BTreeMap` in src/vfs/mod.rs.

use rust_bash.Prelude.{◌≡◌, refl, arith, ◌≢◌, none, some, if◌then◌else◌}
use rust_bash.Prelude.Bytes.{Bytes, beq, beq_iff}
use rust_bash.Vfs.Node.{FsNode, Children, leaf, entry, get, insert, remove, set_child}
use rust_bash.Vfs.Node.Order.{cmp_refl, cmp-eq}

pub get-insert :
    (j k : Bytes) (v : FsNode) (ch : Children)
    → get j (insert k v ch) ≡ (if beq j k then some v else get j ch)
unfolding get insert
get-insert j k v leaf = refl
get-insert j k v (entry i w ch) =
    ground (arith, get-insert j k v ch, cmp-eq k i, cmp_refl k, beq_iff j k, beq_iff j i)

pub get-remove :
    (j k : Bytes) (ch : Children) → get j (remove k ch) ≡ (if beq j k then none else get j ch)
unfolding get remove
get-remove j k leaf = ground arith
get-remove j k (entry i w ch) =
    ground (arith, get-remove j k ch, beq_iff k i, beq_iff j k, beq_iff j i)

pub get-set_child :
    (j k : Bytes) (v : FsNode) (ch : Children)
    → get k ch ≢ none
    → get j (set_child k v ch) ≡ (if beq j k then some v else get j ch)
unfolding get set_child
get-set_child j k v leaf h = absurd (h refl)
get-set_child j k v (entry i w ch) h =
    ground (arith, get-set_child j k v ch, beq_iff k i, beq_iff j k, beq_iff j i)

pub set_child_self :
    (k : Bytes) (v : FsNode) (ch : Children) → get k ch ≡ some v → set_child k v ch ≡ ch
unfolding get set_child
set_child_self k v leaf h = refl
set_child_self k v (entry i w ch) h = ground (arith, set_child_self k v ch)
