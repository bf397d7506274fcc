-- ===== src/Vfs/Overlay/Open.antt =====
-- src/vfs/overlay_tree.rs: a directory that is open for entries stays so when one of its entries is hidden.
use rust_bash.Prelude.{◌≡◌, refl, ℕ, List, [], ◌∷◌, Bool, true, false, Option, none, some, push}
use rust_bash.Prelude.Bytes.{Bytes, beq, beq_iff}
use rust_bash.Vfs.Path.{slash, vfs_join}
use rust_bash.Vfs.Node.{Time}
use rust_bash.Vfs.Overlay.Node.{
  UpperNode, upper_file, upper_dir, upper_symlink, whiteout, UpperChildren, upper_leaf, get_child,
}
use rust_bash.Vfs.Overlay.Tree.{
  Descend, found, missing, blocked, not_dir, descend_by, beneath, at_last, Edited,
  with_parent_children, remove_name, put_whiteout_by, mode_or,
}
use rust_bash.Vfs.Overlay.Resurrect.{descend_by-leaf}
use rust_bash.Vfs.Overlay.Frame.{edit_beneath-same, edited}
use rust_bash.Vfs.Overlay.Whiteout.{scaffolded, scaffold-same}
use rust_bash.Vfs.Overlay.Merged.{IsOpen, in_tree, below_tree}

-- A directory, or nothing that stands in the way of one below.
abbrev pub is_open : Descend → Bool
is_open missing = true
is_open (found (upper_dir _ _ _)) = true
is_open (found (upper_file _ _ _)) = false
is_open (found (upper_symlink _ _)) = false
is_open (found whiteout) = false
is_open blocked = false
is_open not_dir = false

-- The root is open.
abbrev pub is_open_at : List Bytes → UpperChildren → Bool
is_open_at [] t = true
is_open_at (w ∷ ws) t = is_open (descend_by (w ∷ ws) t)

IsOpen-below :
    (w : Bytes) (ws : List Bytes) (t : UpperChildren) (d : Descend)
    → descend_by (w ∷ ws) t ≡ d
    → is_open d ≡ true
    → IsOpen (w ∷ ws) t
IsOpen-below w ws t missing e h = below_tree (λ n. cc) e
IsOpen-below w ws t (found (upper_dir ch m k)) e h = in_tree ch (rw e refl)
IsOpen-below w ws t (found (upper_file _ _ _)) e h = cc
IsOpen-below w ws t (found (upper_symlink _ _)) e h = cc
IsOpen-below w ws t (found whiteout) e h = cc
IsOpen-below w ws t blocked e h = cc
IsOpen-below w ws t not_dir e h = cc

pub IsOpen-is_open_at : (ws : List Bytes) (t : UpperChildren) → is_open_at ws t ≡ true → IsOpen ws t
IsOpen-is_open_at [] t h = in_tree t refl
IsOpen-is_open_at (w ∷ ws) t h = IsOpen-below w ws t (descend_by (w ∷ ws) t) refl h

scaffolded_last :
    (mode : ℕ) (now : Time) (next : UpperChildren → UpperChildren) (o : Option UpperNode)
    → is_open (at_last o) ≡ true
    → is_open (at_last (scaffolded mode now next o)) ≡ true
scaffolded_last mode now next none h = refl
scaffolded_last mode now next (some (upper_dir inner m t)) h = refl
scaffolded_last mode now next (some whiteout) h = cc
scaffolded_last mode now next (some (upper_file _ _ _)) h = cc
scaffolded_last mode now next (some (upper_symlink _ _)) h = cc

scaffolded_open :
    (q : List Bytes) (mode : ℕ) (now : Time) (next : UpperChildren → UpperChildren)
    (o : Option UpperNode)
    → ((inner : UpperChildren)
        → is_open (descend_by q inner) ≡ true
        → is_open (descend_by q (next inner)) ≡ true)
    → is_open (beneath (descend_by q) o) ≡ true
    → is_open (beneath (descend_by q) (scaffolded mode now next o)) ≡ true
scaffolded_open q mode now next none f h = f upper_leaf (rw (descend_by-leaf q) refl)
scaffolded_open q mode now next (some (upper_dir inner m t)) f h = f inner h
scaffolded_open q mode now next (some whiteout) f h = cc
scaffolded_open q mode now next (some (upper_file _ _ _)) f h = cc
scaffolded_open q mode now next (some (upper_symlink _ _)) f h = cc

edited_last :
    (next : UpperChildren → Edited) (o : Option UpperNode)
    → is_open (at_last o) ≡ true
    → is_open (at_last (edited next o)) ≡ true
edited_last next none h = refl
edited_last next (some (upper_dir inner m t)) h = refl
edited_last next (some whiteout) h = cc
edited_last next (some (upper_file _ _ _)) h = cc
edited_last next (some (upper_symlink _ _)) h = cc

edited_open :
    (q : List Bytes) (next : UpperChildren → Edited) (o : Option UpperNode)
    → ((inner : UpperChildren)
        → is_open (descend_by q inner) ≡ true
        → is_open (descend_by q (next inner).0) ≡ true)
    → is_open (beneath (descend_by q) o) ≡ true
    → is_open (beneath (descend_by q) (edited next o)) ≡ true
edited_open q next none f h = refl
edited_open q next (some (upper_dir inner m t)) f h = f inner h
edited_open q next (some whiteout) f h = cc
edited_open q next (some (upper_file _ _ _)) f h = cc
edited_open q next (some (upper_symlink _ _)) f h = cc

pub self : (s : Bytes) → beq s s ≡ true
self s = (beq_iff s s).1 refl

put_whiteout_by-is_open :
    (lower_mode : Bytes → Option ℕ) (now : Time) (cur_path name s : Bytes) (ws : List Bytes)
    (t : UpperChildren)
    → is_open (descend_by (s ∷ ws) t) ≡ true
    → is_open (descend_by (s ∷ ws) (put_whiteout_by lower_mode now cur_path (push (s ∷ ws) name) t))
      ≡ true
unfolding put_whiteout_by descend_by
put_whiteout_by-is_open lm now cur name s [] t h =
    rw
      (scaffold-same s s (mode_or (lm (vfs_join cur s))) now
        (put_whiteout_by lm now (vfs_join cur s) (name ∷ [])) t (get_child s t) (self s) refl)
      (scaffolded_last (mode_or (lm (vfs_join cur s))) now
        (put_whiteout_by lm now (vfs_join cur s) (name ∷ [])) (get_child s t) h)
put_whiteout_by-is_open lm now cur name s (u ∷ ws) t h =
    rw
      (scaffold-same s s (mode_or (lm (vfs_join cur s))) now
        (put_whiteout_by lm now (vfs_join cur s) (push (u ∷ ws) name)) t (get_child s t) (self s)
        refl)
      (scaffolded_open (u ∷ ws) (mode_or (lm (vfs_join cur s))) now
        (put_whiteout_by lm now (vfs_join cur s) (push (u ∷ ws) name)) (get_child s t)
        (put_whiteout_by-is_open lm now (vfs_join cur s) name u ws) h)

remove_name-is_open :
    (path name s : Bytes) (ws : List Bytes) (t : UpperChildren)
    → is_open (descend_by (s ∷ ws) t) ≡ true
    → is_open (descend_by (s ∷ ws) (with_parent_children path (push (s ∷ ws) name) remove_name t).0)
      ≡ true
unfolding with_parent_children descend_by
remove_name-is_open path name s [] t h =
    rw
      (edit_beneath-same path s s (with_parent_children path (name ∷ []) remove_name) t
        (get_child s t) (self s) refl)
      (edited_last (with_parent_children path (name ∷ []) remove_name) (get_child s t) h)
remove_name-is_open path name s (u ∷ ws) t h =
    rw
      (edit_beneath-same path s s (with_parent_children path (push (u ∷ ws) name) remove_name) t
        (get_child s t) (self s) refl)
      (edited_open (u ∷ ws) (with_parent_children path (push (u ∷ ws) name) remove_name)
        (get_child s t) (remove_name-is_open path name u ws) h)

pub put_whiteout_by-is_open_at :
    (lower_mode : Bytes → Option ℕ) (now : Time) (ws : List Bytes) (name : Bytes)
    (t : UpperChildren)
    → is_open_at ws t ≡ true
    → is_open_at ws (put_whiteout_by lower_mode now (slash ∷ []) (push ws name) t) ≡ true
put_whiteout_by-is_open_at lm now [] name t h = refl
put_whiteout_by-is_open_at lm now (s ∷ ws) name t h =
    put_whiteout_by-is_open lm now (slash ∷ []) name s ws t h

pub remove_name-is_open_at :
    (path : Bytes) (ws : List Bytes) (name : Bytes) (t : UpperChildren)
    → is_open_at ws t ≡ true
    → is_open_at ws (with_parent_children path (push ws name) remove_name t).0 ≡ true
remove_name-is_open_at path [] name t h = refl
remove_name-is_open_at path (s ∷ ws) name t h = remove_name-is_open path name s ws t h
