-- ===== src/Vfs/Overlay/Entries.antt =====
-- src/vfs/overlay.rs: the names that a merged listing is made of.

use rust_bash.Prelude.{
  ◌≡◌, refl, arith, List, [], ◌∷◌, Bool, true, false, ◌||◌, ◌&&◌, not, Option, none, some,
}
use rust_bash.Prelude.Bytes.{Bytes, beq, beq_iff}
use rust_bash.Vfs.Path.{vfs_join}
use rust_bash.Vfs.Node.Order.{cmp-eq}
use rust_bash.Vfs.Memory.Operations.Directories.{DirEntry}
use rust_bash.Vfs.Overlay.Node.{
  UpperNode, upper_file, upper_dir, upper_symlink, whiteout, UpperChildren, upper_leaf, upper_entry,
  get_child,
}
use rust_bash.Vfs.Overlay.Order.{IsOrdered, get_child-Above}
use rust_bash.Vfs.Overlay.Tree.Listing.{visible_entries, whiteout_names}
use rust_bash.Vfs.Overlay.Resurrect.{lists}
use rust_bash.Vfs.Overlay.Layers.{is_whiteout}
use rust_bash.Vfs.Overlay.Reads.{insert_entry, remove_entry, insert_lower, insert_all, remove_all}

-- The listing has the name.
unfoldable pub has : Bytes → List DirEntry → Bool
has name [] = false
has name (e ∷ es) = beq name e.name || has name es

pub has-insert_entry :
    (n : Bytes) (e : DirEntry) (ds : List DirEntry)
    → has n (insert_entry e ds) ≡ (beq n e.name || has n ds)
unfolding has insert_entry
has-insert_entry n e [] = refl
has-insert_entry n e (d ∷ ds) = ground (arith, has-insert_entry n e ds, cmp-eq e.name d.name)

pub has-remove_entry :
    (n m : Bytes) (ds : List DirEntry) → has n (remove_entry m ds) ≡ (not (beq n m) && has n ds)
unfolding has remove_entry
has-remove_entry n m [] = ground arith
has-remove_entry n m (d ∷ ds) =
    ground (arith, has-remove_entry n m ds, beq_iff m d.name, beq_iff n m, beq_iff n d.name)

pub has-insert_all :
    (n : Bytes) (es ds : List DirEntry) → has n (insert_all es ds) ≡ (has n es || has n ds)
unfolding has insert_all
has-insert_all n [] ds = refl
has-insert_all n (e ∷ es) ds =
    ground (arith, has-insert_all n es (insert_entry e ds), has-insert_entry n e ds)

pub has-remove_all :
    (n : Bytes) (ns : List Bytes) (ds : List DirEntry)
    → has n (remove_all ns ds) ≡ (not (lists n ns) && has n ds)
unfolding lists remove_all
has-remove_all n [] ds = refl
has-remove_all n (m ∷ ns) ds =
    ground (arith, has-remove_all n ns (remove_entry m ds), has-remove_entry n m ds)

pub has-insert_lower :
    (n path : Bytes) (t : UpperChildren) (es ds : List DirEntry)
    → has n (insert_lower path t es ds)
      ≡ (has n ds || (has n es && not (is_whiteout (vfs_join path n) t)))
unfolding has insert_lower
has-insert_lower n path t [] ds = ground arith
has-insert_lower n path t (e ∷ es) ds = ground (
  arith,
  has-insert_lower n path t es ds,
  has-insert_lower n path t es (insert_entry e ds),
  has-insert_entry n e ds,
  beq_iff n e.name,
)

abbrev pub is_seen : Option UpperNode → Bool
is_seen none = false
is_seen (some whiteout) = false
is_seen (some (upper_file _ _ _)) = true
is_seen (some (upper_dir _ _ _)) = true
is_seen (some (upper_symlink _ _)) = true

abbrev pub is_white : Option UpperNode → Bool
is_white (some whiteout) = true
is_white (some (upper_file _ _ _)) = false
is_white (some (upper_dir _ _ _)) = false
is_white (some (upper_symlink _ _)) = false
is_white none = false

pub has-visible_entries :
    (n : Bytes) (ch : UpperChildren)
    → IsOrdered ch
    → has n (visible_entries ch) ≡ is_seen (get_child n ch)
unfolding has visible_entries get_child IsOrdered
has-visible_entries n upper_leaf s = refl
has-visible_entries n (upper_entry k whiteout rest) (a, m, s) =
    ground (arith, has-visible_entries n rest s, beq_iff n k, get_child-Above k rest a s)
has-visible_entries n (upper_entry k (upper_file _ _ _) rest) (a, m, s) =
    ground (arith, has-visible_entries n rest s)
has-visible_entries n (upper_entry k (upper_dir _ _ _) rest) (a, m, s) =
    ground (arith, has-visible_entries n rest s)
has-visible_entries n (upper_entry k (upper_symlink _ _) rest) (a, m, s) =
    ground (arith, has-visible_entries n rest s)

pub lists-whiteout_names :
    (n : Bytes) (ch : UpperChildren)
    → IsOrdered ch
    → lists n (whiteout_names ch) ≡ is_white (get_child n ch)
unfolding lists whiteout_names get_child IsOrdered
lists-whiteout_names n upper_leaf s = refl
lists-whiteout_names n (upper_entry k whiteout rest) (a, m, s) =
    ground (arith, lists-whiteout_names n rest s)
lists-whiteout_names n (upper_entry k (upper_file _ _ _) rest) (a, m, s) =
    ground (arith, lists-whiteout_names n rest s, beq_iff n k, get_child-Above k rest a s)
lists-whiteout_names n (upper_entry k (upper_dir _ _ _) rest) (a, m, s) =
    ground (arith, lists-whiteout_names n rest s, beq_iff n k, get_child-Above k rest a s)
lists-whiteout_names n (upper_entry k (upper_symlink _ _) rest) (a, m, s) =
    ground (arith, lists-whiteout_names n rest s, beq_iff n k, get_child-Above k rest a s)
