-- ===== src/Vfs/Overlay/Order.antt =====
-- src/vfs/overlay_tree.rs: the names of a directory are in order, so that one name has one entry.
use Prim.Native.Nat.{Ordering}
use rust_bash.Prelude.{◌≡◌, refl, arith, Bool, true, false, Option, none, some, if◌then◌else◌}
use rust_bash.Prelude.Bytes.{Bytes, beq, beq_iff}
use rust_bash.Vfs.Node.{cmp}
use rust_bash.Vfs.Node.Order.{cmp-eq, cmp-gt, Before, Before-trans, Before-ne}
use rust_bash.Vfs.Overlay.Node.{
  UpperNode, upper_file, upper_dir, upper_symlink, whiteout, UpperChildren, upper_leaf, upper_entry,
  get_child, insert_child, remove_child,
}

-- The name `k` comes before the first entry.
abbrev pub Above : Bytes → UpperChildren → Type 0
Above k upper_leaf = Unit
Above k (upper_entry j v rest) = Before k j

unfoldable mutual
  pub IsOrdered : UpperChildren → Type 0
  IsOrdered upper_leaf = Unit
  IsOrdered (upper_entry k v rest) = Above k rest × IsOrderedNode v × IsOrdered rest

  pub IsOrderedNode : UpperNode → Type 0
  IsOrderedNode (upper_dir ch m t) = IsOrdered ch
  IsOrderedNode (upper_file c m t) = Unit
  IsOrderedNode (upper_symlink l t) = Unit
  IsOrderedNode whiteout = Unit

pub get_child-Above :
    (k : Bytes) (ch : UpperChildren) → Above k ch → IsOrdered ch → get_child k ch ≡ none
unfolding get_child IsOrdered
get_child-Above k upper_leaf h s = refl
get_child-Above k (upper_entry j v upper_leaf) h s = ground (arith, Before-ne k j h, beq_iff k j)
get_child-Above k (upper_entry j v (upper_entry i w rest)) h (a, _, s) = ground (
  arith,
  Before-ne k j h,
  beq_iff k j,
  get_child-Above k (upper_entry i w rest) (Before-trans k j i h a) s,
)

Above-insert_child :
    (k j : Bytes) (v : UpperNode) (ch : UpperChildren)
    → Before k j
    → Above k ch
    → Above k (insert_child j v ch)
unfolding insert_child
Above-insert_child k j v upper_leaf h a = h
Above-insert_child k j v (upper_entry i w ch) h a = ground (arith, cmp-eq j i)

insert_child-IsOrdered_at :
    (o : Ordering) (k i : Bytes) (v w : UpperNode) (ch : UpperChildren)
    → cmp k i ≡ o
    → IsOrderedNode v
    → IsOrdered (upper_entry i w ch)
    → IsOrdered (insert_child k v ch)
    → IsOrdered (insert_child k v (upper_entry i w ch))
unfolding insert_child IsOrdered
insert_child-IsOrdered_at Ordering.lt k i v w ch e n (a, m, s) inner =
    rw (insert_child, e) (e, n, (a, m, s))
insert_child-IsOrdered_at Ordering.eq k i v w ch e n (a, m, s) inner =
    rw (insert_child, e) (rw (cmp-eq k i e) a, n, s)
insert_child-IsOrdered_at Ordering.gt k i v w ch e n (a, m, s) inner =
    rw (insert_child, e) (Above-insert_child i k v ch (cmp-gt k i e) a, m, inner)

pub insert_child-IsOrdered :
    (k : Bytes) (v : UpperNode) (ch : UpperChildren)
    → IsOrderedNode v
    → IsOrdered ch
    → IsOrdered (insert_child k v ch)
unfolding insert_child IsOrdered
insert_child-IsOrdered k v upper_leaf n s = (tt, n, tt)
insert_child-IsOrdered k v (upper_entry i w ch) n (a, m, s) =
    insert_child-IsOrdered_at (cmp k i) k i v w ch refl n (a, m, s)
      (insert_child-IsOrdered k v ch n s)

Above-trans : (k i : Bytes) (ch : UpperChildren) → Before k i → Above i ch → Above k ch
Above-trans k i upper_leaf h a = tt
Above-trans k i (upper_entry j v ch) h a = Before-trans k i j h a

Above-if :
    (k : Bytes) (b : Bool) (x y : UpperChildren)
    → Above k x
    → Above k y
    → Above k (if b then x else y)
Above-if k true x y p q = p
Above-if k false x y p q = q

Above-remove_child :
    (k j : Bytes) (ch : UpperChildren) → Above k ch → IsOrdered ch → Above k (remove_child j ch)
unfolding remove_child IsOrdered
Above-remove_child k j upper_leaf a s = tt
Above-remove_child k j (upper_entry i w ch) a (b, m, s) =
    Above-if k (beq j i) _ _ (Above-remove_child k j ch (Above-trans k i ch a b) s) a

IsOrdered-if :
    (b : Bool) (x y : UpperChildren) → IsOrdered x → IsOrdered y → IsOrdered (if b then x else y)
IsOrdered-if true x y p q = p
IsOrdered-if false x y p q = q

pub remove_child-IsOrdered :
    (k : Bytes) (ch : UpperChildren) → IsOrdered ch → IsOrdered (remove_child k ch)
unfolding remove_child IsOrdered
remove_child-IsOrdered k upper_leaf s = tt
remove_child-IsOrdered k (upper_entry i w ch) (a, m, s) =
    IsOrdered-if (beq k i) _ _ (remove_child-IsOrdered k ch s)
      (Above-remove_child i k ch a s, m, remove_child-IsOrdered k ch s)

picked :
    (b : Bool) (w v : UpperNode) (o : Option UpperNode)
    → IsOrderedNode w
    → (o ≡ some v → IsOrderedNode v)
    → (if b then some w else o) ≡ some v
    → IsOrderedNode v
picked true w v o m f h = let same : v ≡ w = cc in rw same m
picked false w v o m f h = f h

pub get_child-IsOrderedNode :
    (k : Bytes) (ch : UpperChildren) (v : UpperNode)
    → IsOrdered ch
    → get_child k ch ≡ some v
    → IsOrderedNode v
unfolding get_child IsOrdered
get_child-IsOrderedNode k upper_leaf v s h = cc
get_child-IsOrderedNode k (upper_entry i w ch) v (a, m, s) h =
    picked (beq k i) w v (get_child k ch) m (get_child-IsOrderedNode k ch v s) h
