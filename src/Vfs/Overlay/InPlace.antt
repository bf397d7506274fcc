-- ===== src/Vfs/Overlay/InPlace.antt =====
-- src/vfs/overlay_tree.rs: the methods that change a node in place through `node_mut`, and the node they leave.
use rust_bash.Prelude.{◌≡◌, sym, refl, ℕ, List, [], ◌∷◌, ◌++◌, Option, none, some, Result, ok, err}
use rust_bash.Prelude.Bytes.{Bytes, beq_iff}
use rust_bash.Vfs.Path.{VfsError, is_a_directory}
use rust_bash.Vfs.Node.{Time}
use rust_bash.Vfs.Memory.Operations.Files.{Metadata}
use rust_bash.Vfs.Overlay.Node.{
  UpperNode, upper_file, upper_dir, upper_symlink, whiteout, UpperChildren, get_child,
}
use rust_bash.Vfs.Overlay.Node.Laws.{get_child-insert_same}
use rust_bash.Vfs.Overlay.Tree.{Descend, found, descend_by, descend, Edited, at_last, path_segments}
use rust_bash.Vfs.Overlay.Tree.Listing.{
  change_node, change_at, write_back, with_node_mut_by, with_node_mut, as_not_found, appended,
  append_file, mode_changed, set_mode, mtime_changed, set_mtime, node_meta, meta,
}
use rust_bash.Vfs.Overlay.Frame.{
  Reached, with_parent_children-Reached, with_parent_children-Reached_found,
}

-- The node before a change that succeeded, and the node after it.
pub record Changed (f : UpperNode → Result UpperNode VfsError) (before after : Descend)
    : Type 0 where
  pub old : UpperNode
  pub new : UpperNode
  pub was : before ≡ found old
  pub gives : f old ≡ ok new
  pub is : after ≡ found new

write_back-Changed :
    (f : UpperNode → Result UpperNode VfsError) (name : Bytes) (ch : UpperChildren)
    (old : UpperNode) (r : Result UpperNode VfsError)
    → f old ≡ r
    → (write_back name ch r).1 ≡ ok tt
    → Changed f (found old) (at_last (get_child name (write_back name ch r).0))
write_back-Changed f name ch old (err e) h k = cc
write_back-Changed f name ch old (ok new) h k = record {
  old = old;
  new = new;
  was = refl;
  gives = h;
  is = rw (get_child-insert_same name name new ch ((beq_iff name name).1 refl)) refl;
}

change_node-Changed :
    (path : Bytes) (f : UpperNode → Result UpperNode VfsError) (name : Bytes) (ch : UpperChildren)
    (o : Option UpperNode)
    → (change_node path f name ch o).1 ≡ ok tt
    → Changed f (at_last o) (at_last (get_child name (change_node path f name ch o).0))
change_node-Changed path f name ch none h = cc
change_node-Changed path f name ch (some old) h = write_back-Changed f name ch old (f old) refl h

change_at-Changed :
    (path : Bytes) (f : UpperNode → Result UpperNode VfsError) (before after : Descend)
    → Reached (change_at path f) (ok tt) before after
    → Changed f before after
change_at-Changed path f before after r =
    rw (r.was, r.is) (change_node-Changed path f r.name r.inner (get_child r.name r.inner) r.gives)

with_node_mut_by-Changed :
    (path : Bytes) (p : List Bytes) (f : UpperNode → Result UpperNode VfsError) (ch : UpperChildren)
    → (with_node_mut_by path p f ch).1 ≡ ok tt
    → Changed f (descend_by p ch) (descend_by p (with_node_mut_by path p f ch).0)
unfolding with_node_mut_by
with_node_mut_by-Changed path [] f ch h = cc
with_node_mut_by-Changed path (seg ∷ p) f ch h =
    change_at-Changed path f _ _
      (with_parent_children-Reached path seg p (change_at path f) tt ch h)

-- The metadata with another mode, and with another time.
abbrev with_mode : ℕ → Option Metadata → Option Metadata
with_mode mode none = none
with_mode mode (some m) = some (record {
  node_type = m.node_type;
  size = m.size;
  mode = mode;
  mtime = m.mtime;
  file_id = m.file_id;
})

abbrev with_mtime : Time → Option Metadata → Option Metadata
with_mtime t none = none
with_mtime t (some m) = some (record {
  node_type = m.node_type;
  size = m.size;
  mode = m.mode;
  mtime = t;
  file_id = m.file_id;
})

mode_changed-with_mode :
    (path : Bytes) (mode : ℕ) (old new : UpperNode)
    → mode_changed path mode old ≡ ok new
    → node_meta (found new) ≡ with_mode mode (node_meta (found old))
mode_changed-with_mode path mode (upper_file c m t) new h = cc
mode_changed-with_mode path mode (upper_dir c m t) new h = cc
mode_changed-with_mode path mode (upper_symlink l t) new h = cc
mode_changed-with_mode path mode whiteout new h = cc

mtime_changed-with_mtime :
    (path : Bytes) (t : Time) (old new : UpperNode)
    → mtime_changed path t old ≡ ok new
    → node_meta (found new) ≡ with_mtime t (node_meta (found old))
mtime_changed-with_mtime path t (upper_file c m _) new h = cc
mtime_changed-with_mtime path t (upper_dir c m _) new h = cc
mtime_changed-with_mtime path t (upper_symlink l _) new h = cc
mtime_changed-with_mtime path t whiteout new h = cc

-- Where the mode of a node is set, its metadata is the same but for the mode.
pub meta-set_mode :
    (path : Bytes) (mode : ℕ) (ch : UpperChildren)
    → (set_mode path mode ch).1 ≡ ok tt
    → meta path (set_mode path mode ch).0 ≡ with_mode mode (meta path ch)
unfolding set_mode meta with_node_mut descend
meta-set_mode path mode ch h =
    let c = with_node_mut_by-Changed path (path_segments path) (mode_changed path mode) ch h in
    rw (c.is, c.was) (mode_changed-with_mode path mode c.old c.new c.gives)

pub meta-set_mtime :
    (path : Bytes) (t : Time) (ch : UpperChildren)
    → (set_mtime path t ch).1 ≡ ok tt
    → meta path (set_mtime path t ch).0 ≡ with_mtime t (meta path ch)
unfolding set_mtime meta with_node_mut descend
meta-set_mtime path t ch h =
    let c = with_node_mut_by-Changed path (path_segments path) (mtime_changed path t) ch h in
    rw (c.is, c.was) (mtime_changed-with_mtime path t c.old c.new c.gives)

-- A change that the node admits is made where the node is found.
change_node-found :
    (path : Bytes) (f : UpperNode → Result UpperNode VfsError) (name : Bytes) (ch : UpperChildren)
    (o : Option UpperNode) (old new : UpperNode)
    → at_last o ≡ found old
    → f old ≡ ok new
    → ((change_node path f name ch o).1 ≡ ok tt)
      × (get_child name (change_node path f name ch o).0 ≡ some new)
change_node-found path f name ch none old new h k = cc
change_node-found path f name ch (some node) old new h k =
    let same : node ≡ old = cc in
    rw (same, k) (refl, get_child-insert_same name name new ch ((beq_iff name name).1 refl))

change_at-found :
    (path : Bytes) (f : UpperNode → Result UpperNode VfsError) (old new : UpperNode)
    (r : Result (Unit {0}) VfsError) (before after : Descend)
    → Reached (change_at path f) r before after
    → before ≡ found old
    → f old ≡ ok new
    → (r ≡ ok tt) × (after ≡ found new)
change_at-found path f old new r before after reached h k =
    let made =
      change_node-found path f reached.name reached.inner (get_child reached.name reached.inner) old
        new (rw (sym reached.was) h) k in
    (rw (sym reached.gives) made.0, rw (reached.is, made.1) refl)

with_node_mut_by-found :
    (path : Bytes) (p : List Bytes) (f : UpperNode → Result UpperNode VfsError)
    (old new : UpperNode) (ch : UpperChildren)
    → descend_by p ch ≡ found old
    → f old ≡ ok new
    → ((with_node_mut_by path p f ch).1 ≡ ok tt)
      × (descend_by p (with_node_mut_by path p f ch).0 ≡ found new)
unfolding with_node_mut_by descend_by
with_node_mut_by-found path [] f old new ch h k = cc
with_node_mut_by-found path (seg ∷ p) f old new ch h k =
    change_at-found path f old new _ _ _
      (with_parent_children-Reached_found path seg p (change_at path f) old ch h) h k

as_not_found-ok : (path : Bytes) (e : Edited) → e.1 ≡ ok tt → (as_not_found path e).1 ≡ ok tt
as_not_found-ok path (ch, ok u) h = refl
as_not_found-ok path (ch, err e) h = cc

pub as_not_found-keeps : (path : Bytes) (e : Edited) → (as_not_found path e).0 ≡ e.0
as_not_found-keeps path (ch, ok u) = refl
as_not_found-keeps path (ch, err (is_a_directory p)) = refl
as_not_found-keeps path (ch, err e) = refl

-- A file that is there takes what is appended.
pub append_file-descend :
    (path content more : Bytes) (mode : ℕ) (mtime now : Time) (ch : UpperChildren)
    → descend path ch ≡ found (upper_file content mode mtime)
    → ((append_file path more now ch).1 ≡ ok tt)
      × (descend path (append_file path more now ch).0
          ≡ found (upper_file (content ++ more) mode now))
unfolding append_file with_node_mut descend
append_file-descend path content more mode mtime now ch h =
    let made =
      with_node_mut_by-found path (path_segments path) (appended path more now) _ _ ch h refl in
    (as_not_found-ok path _ made.0, rw (as_not_found-keeps path) made.1)
