-- ===== src/Vfs/Overlay/Attach.antt =====
-- src/vfs/overlay_tree.rs: `attach`, and the methods that change a node in place: the node that is read afterwards.
use rust_bash.Prelude.{
  ◌≡◌, sym, refl, arith, List, [], ◌∷◌, false, Option, none, some, Result, ok, err,
}
use rust_bash.Prelude.Bytes.{Bytes, beq, beq_iff}
use rust_bash.Vfs.Path.{VfsError}
use rust_bash.Vfs.Overlay.Node.{UpperNode, UpperChildren, get_child}
use rust_bash.Vfs.Overlay.Node.Laws.{
  get_child-insert_child, get_child-remove_child, get_child-insert_same,
}
use rust_bash.Vfs.Overlay.Tree.{
  Descend, found, descend_by, descend, Edited, with_parent_children, may_attach, insert_if,
  attach_at, attach_by, attach, remove_name, path_segments,
}
use rust_bash.Vfs.Overlay.Tree.Listing.{change_node, change_at, write_back, with_node_mut_by}
use rust_bash.Vfs.Overlay.Frame.{
  Apart, KeepsOthers, with_parent_children-Apart, Reached, with_parent_children-Reached,
}

insert_if-other :
    (name j : Bytes) (node : UpperNode) (ch : UpperChildren) (r : Result (Unit {0}) VfsError)
    → beq j name ≡ false
    → get_child j (insert_if name node ch r).0 ≡ get_child j ch
insert_if-other name j node ch (err e) h = refl
insert_if-other name j node ch (ok u) h = ground (arith, get_child-insert_child j name node ch)

write_back-other :
    (name j : Bytes) (ch : UpperChildren) (r : Result UpperNode VfsError)
    → beq j name ≡ false
    → get_child j (write_back name ch r).0 ≡ get_child j ch
write_back-other name j ch (err e) h = refl
write_back-other name j ch (ok node) h = ground (arith, get_child-insert_child j name node ch)

change_node-other :
    (path : Bytes) (f : UpperNode → Result UpperNode VfsError) (name j : Bytes) (ch : UpperChildren)
    (o : Option UpperNode)
    → beq j name ≡ false
    → get_child j (change_node path f name ch o).0 ≡ get_child j ch
change_node-other path f name j ch none h = refl
change_node-other path f name j ch (some node) h = write_back-other name j ch (f node) h

attach_at-KeepsOthers : (path : Bytes) (node : UpperNode) → KeepsOthers (attach_at path node)
attach_at-KeepsOthers path node name j ch h =
    insert_if-other name j node ch (may_attach path node (get_child name ch)) h

change_at-KeepsOthers :
    (path : Bytes) (f : UpperNode → Result UpperNode VfsError) → KeepsOthers (change_at path f)
change_at-KeepsOthers path f name j ch h = change_node-other path f name j ch (get_child name ch) h

pub remove_name-KeepsOthers : KeepsOthers remove_name
remove_name-KeepsOthers name j ch h = ground (arith, get_child-remove_child j name ch)

pub with_node_mut_by-Apart :
    (path : Bytes) (p q : List Bytes) (f : UpperNode → Result UpperNode VfsError)
    (ch : UpperChildren)
    → Apart p q
    → descend_by q (with_node_mut_by path p f ch).0 ≡ descend_by q ch
unfolding with_node_mut_by
with_node_mut_by-Apart path [] q f ch a = refl
with_node_mut_by-Apart path (seg ∷ p) q f ch a =
    with_parent_children-Apart path (seg ∷ p) q (change_at path f) ch (change_at-KeepsOthers path f)
      a

insert_if-found :
    (name : Bytes) (node : UpperNode) (ch : UpperChildren) (r : Result (Unit {0}) VfsError)
    → (insert_if name node ch r).1 ≡ ok tt
    → get_child name (insert_if name node ch r).0 ≡ some node
insert_if-found name node ch (err e) h = cc
insert_if-found name node ch (ok u) h =
    get_child-insert_same name name node ch ((beq_iff name name).1 refl)

attach_at-found :
    (path : Bytes) (node : UpperNode) (before after : Descend)
    → Reached (attach_at path node) (ok tt) before after
    → after ≡ found node
attach_at-found path node before after r =
    rw
      (
        r.is,
        insert_if-found r.name node r.inner (may_attach path node (get_child r.name r.inner))
            r.gives,
      )
      refl

-- Attaching, over the segments.
attach_by-descend_by :
    (path : Bytes) (p q : List Bytes) (node : UpperNode) (ch : UpperChildren) (e : Edited)
    → attach_by path p node ch ≡ some e
    → e.1 ≡ ok tt
    → Apart p q
    → (descend_by p e.0 ≡ found node) × (descend_by q e.0 ≡ descend_by q ch)
unfolding attach_by
attach_by-descend_by path [] q node ch e h k a = cc
attach_by-descend_by path (seg ∷ p) q node ch e h k a =
    let same : with_parent_children path (seg ∷ p) (attach_at path node) ch ≡ e = cc in
    rw (sym same) (
      attach_at-found path node _ _
          (with_parent_children-Reached path seg p (attach_at path node) tt ch (rw same k)),
      with_parent_children-Apart path (seg ∷ p) q (attach_at path node) ch
          (attach_at-KeepsOthers path node) a,
    )

-- A node that is attached is found at its path, and every path apart from it shows what it did.
pub attach-descend :
    (path other : Bytes) (node : UpperNode) (ch ch' : UpperChildren)
    → attach path node ch ≡ some (ch', ok tt)
    → Apart (path_segments path) (path_segments other)
    → (descend path ch' ≡ found node) × (descend other ch' ≡ descend other ch)
unfolding attach descend
attach-descend path other node ch ch' h a =
    attach_by-descend_by path (path_segments path) (path_segments other) node ch (ch', ok tt) h refl
      a
