-- ===== src/Vfs/Overlay/Gone.antt =====
-- src/vfs/overlay.rs: the listing of a directory after `remove_file`.
use rust_bash.Prelude.{
  ◌≡◌, ◌≢◌, sym, ◌∙◌, refl, arith, List, [], ◌∷◌, Bool, true, false, ◌&&◌, not, none, Result, ok,
  err, push, All-push, if◌then◌else◌,
}
use rust_bash.Prelude.Bytes.{Bytes, beq, beq_iff}
use rust_bash.Vfs.Path.{VfsError, vfs_join}
use rust_bash.Vfs.Path.Names.{IsName, Names, render}
use rust_bash.Vfs.Path.Laws.{vfs_join-render}
use rust_bash.Vfs.Node.{Time}
use rust_bash.Vfs.Memory.Operations.Files.{Metadata, directory_type}
use rust_bash.Vfs.Overlay.Node.{upper_file, upper_dir, upper_symlink, whiteout, UpperChildren}
use rust_bash.Vfs.Overlay.Order.{IsOrdered}
use rust_bash.Vfs.Overlay.Ordered.{edits-IsOrdered}
use rust_bash.Vfs.Overlay.Tree.{
  Descend, found, missing, blocked, not_dir, descend, Edited, path_segments, put_whiteout, detach,
}
use rust_bash.Vfs.Overlay.Resurrect.{is_prefix}
use rust_bash.Vfs.Overlay.Frame.{Apart}
use rust_bash.Vfs.Overlay.Whiteout.{edits-Apart}
use rust_bash.Vfs.Overlay.Layers.{Lower, lower_exists, is_type, resolve_layer}
use rust_bash.Vfs.Overlay.Hidden.{is_hidden, IsTree}
use rust_bash.Vfs.Overlay.Removal.{hide, removal_target, remove_at, remove_lower, remove_file}
use rust_bash.Vfs.Overlay.Writes.{lower_mode_of}
use rust_bash.Vfs.Overlay.Removed.{is_hidden-remove_file}
use rust_bash.Vfs.Overlay.Reads.{merged_at}
use rust_bash.Vfs.Overlay.Entries.{has}
use rust_bash.Vfs.Overlay.Merged.{ListsNames, merged_at-resolve_layer, path_segments-render}
use rust_bash.Vfs.Overlay.Open.{
  is_open_at, self, IsOpen-is_open_at, put_whiteout_by-is_open_at, remove_name-is_open_at,
}

-- What holds of the tree before a removal and after a whiteout and a detachment holds after the removal.
keeps_hide :
    (Q : UpperChildren → Type 0) (b : Bool) (x y : UpperChildren)
    → Q x
    → Q y
    → Q (if b then x else y)
keeps_hide Q true x y p q = p
keeps_hide Q false x y p q = q

keeps_either :
    (Q : UpperChildren → Type 0) (b : Bool) (x y : Edited)
    → Q x.0
    → Q y.0
    → Q (if b then x else y).0
keeps_either Q true x y p q = p
keeps_either Q false x y p q = q

keeps_lower :
    (Q : UpperChildren → Type 0) (l : Lower) (path norm : Bytes) (now : Time) (t : UpperChildren)
    (r : Result Metadata VfsError)
    → Q t
    → Q (put_whiteout norm (lower_mode_of l) now t)
    → Q (remove_lower l path norm now t r).0
keeps_lower Q l path norm now t (err e) p w = p
keeps_lower Q l path norm now t (ok m) p w =
    keeps_either Q (is_type m.node_type directory_type) (t, err _)
      (put_whiteout norm (lower_mode_of l) now t, ok tt) p w

keeps_remove_at :
    (Q : UpperChildren → Type 0) (l : Lower) (path norm : Bytes) (now : Time) (t : UpperChildren)
    (d : Descend)
    → Q t
    → Q (put_whiteout norm (lower_mode_of l) now t)
    → Q (detach norm t)
    → Q (remove_at l path norm now t d).0
unfolding hide
keeps_remove_at Q l path norm now t (found (upper_dir _ _ _)) p w d = p
keeps_remove_at Q l path norm now t (found (upper_file _ _ _)) p w d =
    keeps_hide Q (lower_exists l norm) _ _ w d
keeps_remove_at Q l path norm now t (found (upper_symlink _ _)) p w d =
    keeps_hide Q (lower_exists l norm) _ _ w d
keeps_remove_at Q l path norm now t (found whiteout) p w d =
    keeps_hide Q (lower_exists l norm) _ _ w d
keeps_remove_at Q l path norm now t not_dir p w d = p
keeps_remove_at Q l path norm now t missing p w d =
    keeps_lower Q l path norm now t (l.lstat_lower norm) p w
keeps_remove_at Q l path norm now t blocked p w d =
    keeps_lower Q l path norm now t (l.lstat_lower norm) p w

keeps_remove_file :
    (Q : UpperChildren → Type 0) (l : Lower) (path norm : Bytes) (now : Time) (t : UpperChildren)
    → removal_target l path t ≡ ok norm
    → Q t
    → Q (put_whiteout norm (lower_mode_of l) now t)
    → Q (detach norm t)
    → Q (remove_file l path now t).0
unfolding remove_file
keeps_remove_file Q l path norm now t e p w d =
    rw e (keeps_remove_at Q l path norm now t (descend norm t) p w d)

is_prefix_refl : (p : List Bytes) → is_prefix p p ≡ true
unfolding is_prefix
is_prefix_refl [] = refl
is_prefix_refl (s ∷ p) = ground (arith, self s, is_prefix_refl p)

sibling :
    (ws : List Bytes) (n m : Bytes) → beq n m ≡ false → is_prefix (push ws n) (push ws m) ≡ false
unfolding is_prefix
sibling [] n m h = ground arith
sibling (w ∷ ws) n m h = ground (arith, self w, sibling ws n m h)

beq_other : (n m : Bytes) → beq m n ≡ false → beq n m ≡ false
beq_other n m h = ground (arith, beq_iff n m, beq_iff m n)

joined_segments :
    (ws : List Bytes) (name : Bytes)
    → Names ws
    → IsName name
    → path_segments (vfs_join (render ws) name) ≡ push ws name
joined_segments ws name h n =
    rw (vfs_join-render ws name h n) (path_segments-render (push ws name) (All-push IsName ws h n))

push-ne-nil : (ws : List Bytes) (name : Bytes) → push ws name ≢ []
push-ne-nil [] name h = cc
push-ne-nil (w ∷ ws) name h = cc

-- The tree after the removal is as good as the one before.
still-IsOrdered :
    (l : Lower) (path norm : Bytes) (now : Time) (t : UpperChildren)
    → removal_target l path t ≡ ok norm
    → IsOrdered t
    → IsOrdered (remove_file l path now t).0
unfolding IsOrdered
still-IsOrdered l path norm now t e s =
    let kept = edits-IsOrdered norm whiteout (λ dir. none) (lower_mode_of l) now [] 0 t tt s in
    keeps_remove_file IsOrdered l path norm now t e s kept.2 kept.1

still_open :
    (l : Lower) (ws : List Bytes) (name path : Bytes) (now : Time) (t : UpperChildren)
    → Names ws
    → IsName name
    → removal_target l path t ≡ ok (vfs_join (render ws) name)
    → is_open_at ws t ≡ true
    → is_open_at ws (remove_file l path now t).0 ≡ true
unfolding put_whiteout detach
still_open l ws name path now t h n e o =
    let norm = vfs_join (render ws) name in
    keeps_remove_file (λ x. is_open_at ws x ≡ true) l path norm now t e o
      (rw (joined_segments ws name h n)
        (put_whiteout_by-is_open_at (lower_mode_of l) now ws name t o))
      (rw (detach, joined_segments ws name h n) (remove_name-is_open_at norm ws name t o))

-- Another name of the directory shows what it did.
still_shown :
    (l : Lower) (ws : List Bytes) (name m path : Bytes) (now : Time) (t : UpperChildren)
    → Names ws
    → IsName name
    → IsName m
    → beq m name ≡ false
    → removal_target l path t ≡ ok (vfs_join (render ws) name)
    → resolve_layer l (vfs_join (render ws) m) (remove_file l path now t).0
      ≡ resolve_layer l (vfs_join (render ws) m) t
unfolding resolve_layer
still_shown l ws name m path now t h n k b e =
    let norm = vfs_join (render ws) name in
    let other = vfs_join (render ws) m in
    let away : Apart (path_segments norm) (path_segments other) =
      rw (joined_segments ws name h n, joined_segments ws m h k)
        (sibling ws name m (beq_other name m b), sibling ws m name b) in
    let same = edits-Apart norm other (lower_mode_of l) now [] 0 t away in
    rw
      (keeps_remove_file (λ x. descend other x ≡ descend other t) l path norm now t e refl same.0
        same.1)
      refl

shown_case :
    (b : Bool) (l : Lower) (ws : List Bytes) (name m path : Bytes) (now : Time) (t : UpperChildren)
    → beq m name ≡ b
    → Names ws
    → IsName name
    → IsName m
    → IsTree l
    → removal_target l path t ≡ ok (vfs_join (render ws) name)
    → (remove_file l path now t).1 ≡ ok tt
    → not (is_hidden (resolve_layer l (vfs_join (render ws) m) (remove_file l path now t).0))
      ≡ (not b && not (is_hidden (resolve_layer l (vfs_join (render ws) m) t)))
shown_case false l ws name m path now t b h n k tree e ran =
    rw (still_shown l ws name m path now t h n k b e) refl
shown_case true l ws name m path now t b h n k tree e ran =
    let norm = vfs_join (render ws) name in
    let same : m ≡ name = (beq_iff m name).0 b in
    rw
      (
        same,
        is_hidden-remove_file l path norm norm now t tree e
            (λ z. push-ne-nil ws name (sym (joined_segments ws name h n) ∙ z))
            (is_prefix_refl (path_segments norm)) ran,
      )
      refl

-- Where remove_file succeeds on the entry `name` of a directory that is open, in an upper tree in order over a lower layer
-- that is a tree and lists the names that it has, the merged listing of the directory is the one before without that name.
pub merged_at-remove_file :
    (l : Lower) (ws : List Bytes) (name m path : Bytes) (now : Time) (t : UpperChildren)
    → Names ws
    → IsName name
    → IsName m
    → IsOrdered t
    → is_open_at ws t ≡ true
    → IsTree l
    → ListsNames l (render ws)
    → removal_target l path t ≡ ok (vfs_join (render ws) name)
    → (remove_file l path now t).1 ≡ ok tt
    → has m (merged_at l (render ws) (remove_file l path now t).0)
      ≡ (not (beq m name) && has m (merged_at l (render ws) t))
merged_at-remove_file l ws name m path now t h n k s o tree lower e ran =
    rw
      (
        merged_at-resolve_layer l ws m (remove_file l path now t).0 h k
            (still-IsOrdered l path (vfs_join (render ws) name) now t e s) lower
            (IsOpen-is_open_at ws (remove_file l path now t).0
              (still_open l ws name path now t h n e o)),
        merged_at-resolve_layer l ws m t h k s lower (IsOpen-is_open_at ws t o),
      )
      (shown_case (beq m name) l ws name m path now t refl h n k tree e ran)
