-- ===== src/Vfs/Overlay/Ordered.antt =====
-- src/vfs/overlay_tree.rs: every method keeps the names of every directory in order.
use rust_bash.Prelude.{◌≡◌, refl, ℕ, List, [], ◌∷◌, Option, none, some, Result, ok, err}
use rust_bash.Prelude.Bytes.{Bytes}
use rust_bash.Vfs.Path.{slash, VfsError, vfs_join}
use rust_bash.Vfs.Node.{Time}
use rust_bash.Vfs.Overlay.Node.{
  UpperNode, upper_file, upper_dir, upper_symlink, whiteout, UpperChildren, upper_leaf, get_child,
  insert_child,
}
use rust_bash.Vfs.Overlay.Order.{
  IsOrdered, IsOrderedNode, insert_child-IsOrdered, remove_child-IsOrdered, get_child-IsOrderedNode,
}
use rust_bash.Vfs.Overlay.Tree.{
  Edit, Edited, edit_beneath, with_parent_children, may_attach, insert_if, attach_at, attach_by,
  attach, remove_name, detach, scaffold, mode_or, put_whiteout_by, put_whiteout, hide_all, names_or,
  ensure_one, ensure_dirs_by, ensure_dirs, path_segments,
}
use rust_bash.Vfs.Overlay.Tree.Listing.{
  write_back, change_node, change_at, with_node_mut_by, with_node_mut, appended, append_file,
  mode_changed, set_mode, mtime_changed, set_mtime,
}
use rust_bash.Vfs.Overlay.InPlace.{as_not_found-keeps}

abbrev IsOrderedIn : Option UpperNode → Type 0
IsOrderedIn none = Unit
IsOrderedIn (some v) = IsOrderedNode v

found_in :
    (k : Bytes) (ch : UpperChildren) (o : Option UpperNode)
    → IsOrdered ch
    → get_child k ch ≡ o
    → IsOrderedIn o
found_in k ch none s e = tt
found_in k ch (some v) s e = get_child-IsOrderedNode k ch v s e

-- An edit keeps the order.
abbrev Keeps : {A : Type 0} → (UpperChildren → Edit A) → Type 0
Keeps f = (ch : UpperChildren) → IsOrdered ch → IsOrdered (f ch).0

edit_beneath-IsOrdered :
    {A : Type 0} (path seg : Bytes) (next : UpperChildren → Edit A) (ch : UpperChildren)
    (o : Option UpperNode)
    → Keeps next
    → IsOrdered ch
    → IsOrderedIn o
    → IsOrdered (edit_beneath path seg next ch o).0
unfolding IsOrdered
edit_beneath-IsOrdered path seg next ch none keeps s m = s
edit_beneath-IsOrdered path seg next ch (some whiteout) keeps s m = s
edit_beneath-IsOrdered path seg next ch (some (upper_dir inner mode t)) keeps s m =
    insert_child-IsOrdered seg (upper_dir (next inner).0 mode t) ch (keeps inner m) s
edit_beneath-IsOrdered path seg next ch (some (upper_file _ _ _)) keeps s m = s
edit_beneath-IsOrdered path seg next ch (some (upper_symlink _ _)) keeps s m = s

with_parent_children-IsOrdered :
    {A : Type 0} (path : Bytes) (p : List Bytes) (f : Bytes → UpperChildren → Edit A)
    → ((name : Bytes) → Keeps (f name))
    → Keeps (with_parent_children path p f)
unfolding with_parent_children
with_parent_children-IsOrdered path [] f keeps ch s = s
with_parent_children-IsOrdered path (seg ∷ []) f keeps ch s = keeps seg ch s
with_parent_children-IsOrdered path (seg ∷ t ∷ p) f keeps ch s =
    edit_beneath-IsOrdered path seg (with_parent_children path (t ∷ p) f) ch (get_child seg ch)
      (with_parent_children-IsOrdered path (t ∷ p) f keeps) s
      (found_in seg ch (get_child seg ch) s refl)

insert_if-IsOrdered :
    (name : Bytes) (node : UpperNode) (ch : UpperChildren) (r : Result (Unit {0}) VfsError)
    → IsOrderedNode node
    → IsOrdered ch
    → IsOrdered (insert_if name node ch r).0
insert_if-IsOrdered name node ch (err e) m s = s
insert_if-IsOrdered name node ch (ok u) m s = insert_child-IsOrdered name node ch m s

-- The children after a method that may panic.
abbrev pub IsOrderedAfter : Option Edited → Type 0
IsOrderedAfter none = Unit
IsOrderedAfter (some e) = IsOrdered e.0

attach_by-IsOrdered :
    (path : Bytes) (p : List Bytes) (node : UpperNode) (ch : UpperChildren)
    → IsOrderedNode node
    → IsOrdered ch
    → IsOrderedAfter (attach_by path p node ch)
unfolding attach_by
attach_by-IsOrdered path [] node ch m s = tt
attach_by-IsOrdered path (seg ∷ p) node ch m s =
    with_parent_children-IsOrdered path (seg ∷ p) (attach_at path node)
      (λ name inner k.
        insert_if-IsOrdered name node inner (may_attach path node (get_child name inner)) m k)
      ch s

-- A change of a node keeps the order below it.
abbrev KeepsNode : (UpperNode → Result UpperNode VfsError) → Type 0
KeepsNode f = (old new : UpperNode) → IsOrderedNode old → f old ≡ ok new → IsOrderedNode new

write_back-IsOrdered :
    (f : UpperNode → Result UpperNode VfsError) (name : Bytes) (ch : UpperChildren)
    (old : UpperNode) (r : Result UpperNode VfsError)
    → KeepsNode f
    → IsOrdered ch
    → IsOrderedNode old
    → f old ≡ r
    → IsOrdered (write_back name ch r).0
write_back-IsOrdered f name ch old (err e) keeps s m h = s
write_back-IsOrdered f name ch old (ok new) keeps s m h =
    insert_child-IsOrdered name new ch (keeps old new m h) s

change_node-IsOrdered :
    (path : Bytes) (f : UpperNode → Result UpperNode VfsError) (name : Bytes) (ch : UpperChildren)
    (o : Option UpperNode)
    → KeepsNode f
    → IsOrdered ch
    → IsOrderedIn o
    → IsOrdered (change_node path f name ch o).0
change_node-IsOrdered path f name ch none keeps s m = s
change_node-IsOrdered path f name ch (some old) keeps s m =
    write_back-IsOrdered f name ch old (f old) keeps s m refl

with_node_mut_by-IsOrdered :
    (path : Bytes) (p : List Bytes) (f : UpperNode → Result UpperNode VfsError) (ch : UpperChildren)
    → KeepsNode f
    → IsOrdered ch
    → IsOrdered (with_node_mut_by path p f ch).0
unfolding with_node_mut_by
with_node_mut_by-IsOrdered path [] f ch keeps s = s
with_node_mut_by-IsOrdered path (seg ∷ p) f ch keeps s =
    with_parent_children-IsOrdered path (seg ∷ p) (change_at path f)
      (λ name inner k.
        change_node-IsOrdered path f name inner (get_child name inner) keeps k
          (found_in name inner (get_child name inner) k refl))
      ch s

abbrev done : UpperNode → Result UpperNode VfsError
done node = ok node

taken : (x new : UpperNode) → done x ≡ done new → IsOrderedNode x → IsOrderedNode new
taken x new h m = let same : new ≡ x = cc in rw same m

appended-KeepsNode : (path more : Bytes) (now : Time) → KeepsNode (appended path more now)
unfolding IsOrderedNode
appended-KeepsNode path more now (upper_file c m t) new s h = taken _ new h tt
appended-KeepsNode path more now (upper_dir c m t) new s h = cc
appended-KeepsNode path more now (upper_symlink l t) new s h = cc
appended-KeepsNode path more now whiteout new s h = cc

mode_changed-KeepsNode : (path : Bytes) (mode : ℕ) → KeepsNode (mode_changed path mode)
unfolding IsOrderedNode
mode_changed-KeepsNode path mode (upper_file c m t) new s h = taken _ new h tt
mode_changed-KeepsNode path mode (upper_dir c m t) new s h = taken (upper_dir c mode t) new h s
mode_changed-KeepsNode path mode (upper_symlink l t) new s h = cc
mode_changed-KeepsNode path mode whiteout new s h = cc

mtime_changed-KeepsNode : (path : Bytes) (now : Time) → KeepsNode (mtime_changed path now)
unfolding IsOrderedNode
mtime_changed-KeepsNode path now (upper_file c m t) new s h = taken _ new h tt
mtime_changed-KeepsNode path now (upper_dir c m t) new s h = taken (upper_dir c m now) new h s
mtime_changed-KeepsNode path now (upper_symlink l t) new s h = taken _ new h tt
mtime_changed-KeepsNode path now whiteout new s h = cc

scaffold-IsOrdered :
    (seg : Bytes) (mode : ℕ) (now : Time) (next : UpperChildren → UpperChildren)
    (ch : UpperChildren) (o : Option UpperNode)
    → ((inner : UpperChildren) → IsOrdered inner → IsOrdered (next inner))
    → IsOrdered ch
    → IsOrderedIn o
    → IsOrdered (scaffold seg mode now next ch o)
unfolding IsOrdered
scaffold-IsOrdered seg mode now next ch none keeps s m =
    insert_child-IsOrdered seg (upper_dir (next upper_leaf) mode now) ch (keeps upper_leaf tt) s
scaffold-IsOrdered seg mode now next ch (some (upper_dir inner d t)) keeps s m =
    insert_child-IsOrdered seg (upper_dir (next inner) d t) ch (keeps inner m) s
scaffold-IsOrdered seg mode now next ch (some whiteout) keeps s m = s
scaffold-IsOrdered seg mode now next ch (some (upper_file _ _ _)) keeps s m = s
scaffold-IsOrdered seg mode now next ch (some (upper_symlink _ _)) keeps s m = s

put_whiteout_by-IsOrdered :
    (lower_mode : Bytes → Option ℕ) (now : Time) (cur_path : Bytes) (p : List Bytes)
    (ch : UpperChildren)
    → IsOrdered ch
    → IsOrdered (put_whiteout_by lower_mode now cur_path p ch)
unfolding put_whiteout_by IsOrdered
put_whiteout_by-IsOrdered lm now cur [] ch s = s
put_whiteout_by-IsOrdered lm now cur (seg ∷ []) ch s = insert_child-IsOrdered seg whiteout ch tt s
put_whiteout_by-IsOrdered lm now cur (seg ∷ t ∷ p) ch s =
    scaffold-IsOrdered seg (mode_or (lm (vfs_join cur seg))) now
      (put_whiteout_by lm now (vfs_join cur seg) (t ∷ p)) ch (get_child seg ch)
      (put_whiteout_by-IsOrdered lm now (vfs_join cur seg) (t ∷ p)) s
      (found_in seg ch (get_child seg ch) s refl)

hide_all-IsOrdered :
    (names : List Bytes) (ch : UpperChildren) → IsOrdered ch → IsOrdered (hide_all names ch)
unfolding hide_all IsOrdered
hide_all-IsOrdered [] ch s = s
hide_all-IsOrdered (n ∷ names) ch s =
    hide_all-IsOrdered names (insert_child n whiteout ch)
      (insert_child-IsOrdered n whiteout ch tt s)

ensure_one-IsOrdered :
    (cur_path seg : Bytes) (names : List Bytes) (mode : ℕ) (now : Time)
    (next : UpperChildren → Edited) (ch : UpperChildren) (o : Option UpperNode)
    → Keeps next
    → IsOrdered ch
    → IsOrderedIn o
    → IsOrdered (ensure_one cur_path seg names mode now next ch o).0
unfolding IsOrdered
ensure_one-IsOrdered cur seg names mode now next ch none keeps s m =
    insert_child-IsOrdered seg (upper_dir (next upper_leaf).0 mode now) ch (keeps upper_leaf tt) s
ensure_one-IsOrdered cur seg names mode now next ch (some whiteout) keeps s m =
    insert_child-IsOrdered seg (upper_dir (next (hide_all names upper_leaf)).0 mode now) ch
      (keeps (hide_all names upper_leaf) (hide_all-IsOrdered names upper_leaf tt)) s
ensure_one-IsOrdered cur seg names mode now next ch (some (upper_dir inner d t)) keeps s m =
    insert_child-IsOrdered seg (upper_dir (next inner).0 d t) ch (keeps inner m) s
ensure_one-IsOrdered cur seg names mode now next ch (some (upper_file _ _ _)) keeps s m = s
ensure_one-IsOrdered cur seg names mode now next ch (some (upper_symlink _ _)) keeps s m = s

ensure_dirs_by-IsOrdered :
    (lower_readdir : Bytes → Option (List Bytes)) (lower_mode : Bytes → Option ℕ) (now : Time)
    (cur_path : Bytes) (p : List Bytes)
    → Keeps (ensure_dirs_by lower_readdir lower_mode now cur_path p)
unfolding ensure_dirs_by
ensure_dirs_by-IsOrdered lr lm now cur [] ch s = s
ensure_dirs_by-IsOrdered lr lm now cur (seg ∷ p) ch s =
    ensure_one-IsOrdered (vfs_join cur seg) seg (names_or (lr (vfs_join cur seg)))
      (mode_or (lm (vfs_join cur seg))) now (ensure_dirs_by lr lm now (vfs_join cur seg) p) ch
      (get_child seg ch) (ensure_dirs_by-IsOrdered lr lm now (vfs_join cur seg) p) s
      (found_in seg ch (get_child seg ch) s refl)

-- Where the names of every directory are in order, and those below the node that is attached, they are after attach,
-- detach, put_whiteout, ensure_dirs, append_file, set_mode and set_mtime.
pub edits-IsOrdered :
    (path : Bytes) (node : UpperNode) (lower_readdir : Bytes → Option (List Bytes))
    (lower_mode : Bytes → Option ℕ) (now : Time) (more : Bytes) (mode : ℕ) (ch : UpperChildren)
    → IsOrderedNode node
    → IsOrdered ch
    → IsOrderedAfter (attach path node ch)
      × IsOrdered (detach path ch)
      × IsOrdered (put_whiteout path lower_mode now ch)
      × IsOrdered (ensure_dirs path lower_readdir lower_mode now ch).0
      × IsOrdered (append_file path more now ch).0
      × IsOrdered (set_mode path mode ch).0
      × IsOrdered (set_mtime path now ch).0
unfolding attach detach put_whiteout ensure_dirs append_file set_mode set_mtime with_node_mut
edits-IsOrdered path node lr lm now more mode ch m s = (
  attach_by-IsOrdered path (path_segments path) node ch m s,
  with_parent_children-IsOrdered path (path_segments path) remove_name
      (λ name inner k. remove_child-IsOrdered name inner k) ch s,
  put_whiteout_by-IsOrdered lm now (slash ∷ []) (path_segments path) ch s,
  ensure_dirs_by-IsOrdered lr lm now (slash ∷ []) (path_segments path) ch s,
  rw (as_not_found-keeps path) (
      with_node_mut_by-IsOrdered path (path_segments path) (appended path more now) ch
        (appended-KeepsNode path more now) s),
  with_node_mut_by-IsOrdered path (path_segments path) (mode_changed path mode) ch
      (mode_changed-KeepsNode path mode) s,
  with_node_mut_by-IsOrdered path (path_segments path) (mtime_changed path now) ch
      (mtime_changed-KeepsNode path now) s,
)
