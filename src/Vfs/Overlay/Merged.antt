-- ===== src/Vfs/Overlay/Merged.antt =====
-- src/vfs/overlay.rs: `readdir_merged`. A directory lists the names that the overlay shows in it.

use rust_bash.Prelude.{
  ◌≡◌, refl, arith, List, [], ◌∷◌, Bool, true, false, ◌||◌, ◌&&◌, not, Option, none, some, push,
  All-push, ◌∙◌, ◌≢◌,
}
use rust_bash.Prelude.Bytes.{Bytes}
use rust_bash.Vfs.Path.{split, join, non_empty, vfs_join}
use rust_bash.Vfs.Path.Split.{split-join}
use rust_bash.Vfs.Path.Names.{IsName, Names, render, non_empty-Names, Names-NoSlash}
use rust_bash.Vfs.Path.Laws.{vfs_join-render}
use rust_bash.Vfs.Overlay.Node.{
  UpperNode, upper_file, upper_dir, upper_symlink, whiteout, UpperChildren, get_child,
}
use rust_bash.Vfs.Overlay.Order.{IsOrdered, IsOrderedNode, get_child-IsOrderedNode}
use rust_bash.Vfs.Overlay.Tree.{
  Descend, missing, descend_by, descend, beneath, at_last, path_segments, is_blocked_or_whiteout,
}
use rust_bash.Vfs.Overlay.Tree.Listing.{dir_children, children_at, dir_entries, whiteout_children}
use rust_bash.Vfs.Overlay.Resurrect.{lists}
use rust_bash.Vfs.Overlay.Layers.{Lower, lower_exists, is_whiteout, layer_of, resolve_layer}
use rust_bash.Vfs.Overlay.Hidden.{is_hidden}
use rust_bash.Vfs.Overlay.Reads.{lower_names, upper_names, merged_at}
use rust_bash.Vfs.Overlay.Entries.{
  has, has-insert_all, has-remove_all, has-insert_lower, is_seen, is_white, has-visible_entries,
  lists-whiteout_names,
}

pub path_segments-render : (ws : List Bytes) → Names ws → path_segments (render ws) ≡ ws
unfolding path_segments split join non_empty
path_segments-render [] h = refl
path_segments-render (w ∷ ws) h =
    rw (split-join w ws (Names-NoSlash (w ∷ ws) h)) (non_empty-Names (w ∷ ws) h)

-- The children of a directory, the root's included.
abbrev pub children_by : List Bytes → UpperChildren → Option UpperChildren
children_by [] t = some t
children_by (s ∷ ws) t = dir_children (descend_by (s ∷ ws) t)

below_child :
    (name : Bytes) (o : Option UpperNode) (ch : UpperChildren)
    → dir_children (at_last o) ≡ some ch
    → beneath (descend_by (name ∷ [])) o ≡ at_last (get_child name ch)
unfolding descend_by
below_child name none ch h = cc
below_child name (some whiteout) ch h = cc
below_child name (some (upper_dir inner m t)) ch h = let same : inner ≡ ch = cc in rw same refl
below_child name (some (upper_file _ _ _)) ch h = cc
below_child name (some (upper_symlink _ _)) ch h = cc

further :
    (name : Bytes) (q : List Bytes) (r : Descend) (o : Option UpperNode) (ch : UpperChildren)
    → ((inner : UpperChildren)
        → dir_children (descend_by q inner) ≡ some ch
        → descend_by (push q name) inner ≡ r)
    → dir_children (beneath (descend_by q) o) ≡ some ch
    → beneath (descend_by (push q name)) o ≡ r
further name q r none ch f h = cc
further name q r (some whiteout) ch f h = cc
further name q r (some (upper_dir inner m t)) ch f h = f inner h
further name q r (some (upper_file _ _ _)) ch f h = cc
further name q r (some (upper_symlink _ _)) ch f h = cc

descend_by-push :
    (ws : List Bytes) (name : Bytes) (t ch : UpperChildren)
    → children_by ws t ≡ some ch
    → descend_by (push ws name) t ≡ at_last (get_child name ch)
unfolding descend_by
descend_by-push [] name t ch h = let same : t ≡ ch = cc in rw same refl
descend_by-push (s ∷ []) name t ch h = below_child name (get_child s t) ch h
descend_by-push (s ∷ u ∷ ws) name t ch h =
    further name (u ∷ ws) (at_last (get_child name ch)) (get_child s t) ch
      (λ inner k. descend_by-push (u ∷ ws) name inner ch k) h

IsOrdered-below :
    (q : List Bytes) (o : Option UpperNode) (ch : UpperChildren)
    → ((inner : UpperChildren)
        → IsOrdered inner
        → dir_children (descend_by q inner) ≡ some ch
        → IsOrdered ch)
    → ((v : UpperNode) → o ≡ some v → IsOrderedNode v)
    → dir_children (beneath (descend_by q) o) ≡ some ch
    → IsOrdered ch
unfolding IsOrdered
IsOrdered-below q none ch f m h = cc
IsOrdered-below q (some whiteout) ch f m h = cc
IsOrdered-below q (some (upper_dir inner d t)) ch f m h = f inner (m (upper_dir inner d t) refl) h
IsOrdered-below q (some (upper_file _ _ _)) ch f m h = cc
IsOrdered-below q (some (upper_symlink _ _)) ch f m h = cc

IsOrdered-here :
    (o : Option UpperNode) (ch : UpperChildren)
    → ((v : UpperNode) → o ≡ some v → IsOrderedNode v)
    → dir_children (at_last o) ≡ some ch
    → IsOrdered ch
unfolding IsOrdered
IsOrdered-here none ch m h = cc
IsOrdered-here (some whiteout) ch m h = cc
IsOrdered-here (some (upper_dir inner d t)) ch m h =
    let same : ch ≡ inner = cc in rw same (m (upper_dir inner d t) refl)
IsOrdered-here (some (upper_file _ _ _)) ch m h = cc
IsOrdered-here (some (upper_symlink _ _)) ch m h = cc

children_by-IsOrdered :
    (ws : List Bytes) (t ch : UpperChildren)
    → IsOrdered t
    → children_by ws t ≡ some ch
    → IsOrdered ch
unfolding descend_by
children_by-IsOrdered [] t ch s h = let same : ch ≡ t = cc in rw same s
children_by-IsOrdered (w ∷ []) t ch s h =
    IsOrdered-here (get_child w t) ch (λ v e. get_child-IsOrderedNode w t v s e) h
children_by-IsOrdered (w ∷ u ∷ ws) t ch s h =
    IsOrdered-below (u ∷ ws) (get_child w t) ch
      (λ inner k e. children_by-IsOrdered (u ∷ ws) inner ch k e)
      (λ v e. get_child-IsOrderedNode w t v s e) h

beneath-missing :
    (name : Bytes) (q : List Bytes) (o : Option UpperNode)
    → ((inner : UpperChildren)
        → descend_by q inner ≡ missing
        → descend_by (push q name) inner ≡ missing)
    → beneath (descend_by q) o ≡ missing
    → beneath (descend_by (push q name)) o ≡ missing
beneath-missing name q none f h = refl
beneath-missing name q (some whiteout) f h = cc
beneath-missing name q (some (upper_dir inner m t)) f h = f inner h
beneath-missing name q (some (upper_file _ _ _)) f h = cc
beneath-missing name q (some (upper_symlink _ _)) f h = cc

at_last-missing :
    (name : Bytes) (o : Option UpperNode)
    → at_last o ≡ missing
    → beneath (descend_by (name ∷ [])) o ≡ missing
at_last-missing name none h = refl
at_last-missing name (some v) h = cc

descend_by-missing :
    (w : Bytes) (ws : List Bytes) (name : Bytes) (t : UpperChildren)
    → descend_by (w ∷ ws) t ≡ missing
    → descend_by (push (w ∷ ws) name) t ≡ missing
unfolding descend_by
descend_by-missing w [] name t h = at_last-missing name (get_child w t) h
descend_by-missing w (u ∷ ws) name t h =
    beneath-missing name (u ∷ ws) (get_child w t) (descend_by-missing u ws name) h

children_at-render :
    (ws : List Bytes) (t : UpperChildren) → Names ws → children_at (render ws) t ≡ children_by ws t
unfolding children_at descend
children_at-render [] t h = rw (path_segments-render [] h) refl
children_at-render (w ∷ ws) t h = rw (path_segments-render (w ∷ ws) h) refl

-- The listing agrees with the layers, for a node `o` of the upper tree, or none.
agrees :
    (o : Option UpperNode) (b seen white below : Bool)
    → white ≡ is_white o
    → seen ≡ is_seen o
    → below ≡ b
    → (not white && (seen || (below && not (is_blocked_or_whiteout (at_last o)))))
      ≡ not (is_hidden (layer_of b (at_last o)))
agrees none true seen white below h k m = ground arith
agrees none false seen white below h k m = ground arith
agrees (some whiteout) b seen white below h k m = ground arith
agrees (some (upper_file _ _ _)) b seen white below h k m = ground arith
agrees (some (upper_dir _ _ _)) b seen white below h k m = ground arith
agrees (some (upper_symlink _ _)) b seen white below h k m = ground arith

-- What the lower layer is relied on for: a directory lists the names that it has.
abbrev pub ListsNames : Lower → Bytes → Type 0
ListsNames l path =
    (name : Bytes)
    → IsName name
    → has name (lower_names (lower_exists l path) (l.readdir_lower path))
      ≡ lower_exists l (vfs_join path name)

-- What the listing has, in terms of the entries it is merged from.
has-merged :
    (l : Lower) (path name : Bytes) (t : UpperChildren)
    → has name (merged_at l path t) ≡ (
        not (lists name (whiteout_children path t))
        && (has name (upper_names (dir_entries path t))
            || (has name (lower_names (lower_exists l path) (l.readdir_lower path))
                && not (is_whiteout (vfs_join path name) t))))
unfolding merged_at has
has-merged l path name t =
    rw
      (
        has-remove_all name (whiteout_children path t) _,
        has-insert_all name (upper_names (dir_entries path t)) _,
        has-insert_lower name path t (lower_names (lower_exists l path) (l.readdir_lower path)) [],
      )
      refl

-- The entry of a name under the directory, in both layers.
Agrees : Lower → List Bytes → Bytes → UpperChildren → Type 0
Agrees l ws name t =
    has name (merged_at l (render ws) t)
    ≡ not (is_hidden (resolve_layer l (vfs_join (render ws) name) t))

Agrees-node :
    (l : Lower) (ws : List Bytes) (name : Bytes) (t : UpperChildren) (o : Option UpperNode)
    → IsName name
    → ListsNames l (render ws)
    → descend (vfs_join (render ws) name) t ≡ at_last o
    → lists name (whiteout_children (render ws) t) ≡ is_white o
    → has name (upper_names (dir_entries (render ws) t)) ≡ is_seen o
    → Agrees l ws name t
unfolding Agrees resolve_layer is_whiteout
Agrees-node l ws name t o n listed h white seen =
    has-merged l (render ws) name t
    ∙ rw h (agrees o (lower_exists l (vfs_join (render ws) name)) _ _ _ white seen (listed name n))

descend-render :
    (ws : List Bytes) (name : Bytes) (t : UpperChildren)
    → Names ws
    → IsName name
    → descend (vfs_join (render ws) name) t ≡ descend_by (push ws name) t
unfolding descend
descend-render ws name t h n =
    rw (vfs_join-render ws name h n, path_segments-render (push ws name) (All-push IsName ws h n))
      refl

-- The directory stands in the upper tree, or has nothing there.
pub data IsOpen (ws : List Bytes) (t : UpperChildren) : Type 0 where
  in_tree : (ch : UpperChildren) → children_by ws t ≡ some ch → IsOpen ws t
  below_tree : ws ≢ [] → descend_by ws t ≡ missing → IsOpen ws t

no_children :
    (w : Bytes) (ws : List Bytes) (t : UpperChildren)
    → descend_by (w ∷ ws) t ≡ missing
    → children_by (w ∷ ws) t ≡ none
no_children w ws t h = rw h refl

-- Where every directory of the upper tree is in order, the lower layer lists the names that it has, and the directory
-- stands in the upper tree or has nothing there, the merged listing has a name just where one of the layers shows it.
pub merged_at-resolve_layer :
    (l : Lower) (ws : List Bytes) (name : Bytes) (t : UpperChildren)
    → Names ws
    → IsName name
    → IsOrdered t
    → ListsNames l (render ws)
    → IsOpen ws t
    → has name (merged_at l (render ws) t)
      ≡ not (is_hidden (resolve_layer l (vfs_join (render ws) name) t))
unfolding whiteout_children dir_entries Agrees lists has
merged_at-resolve_layer l ws name t h n s lower (in_tree ch e) =
    Agrees-node l ws name t (get_child name ch) n lower
      (descend-render ws name t h n ∙ descend_by-push ws name t ch e)
      (rw (children_at-render ws t h, e)
        (lists-whiteout_names name ch (children_by-IsOrdered ws t ch s e)))
      (rw (children_at-render ws t h, e)
        (has-visible_entries name ch (children_by-IsOrdered ws t ch s e)))
merged_at-resolve_layer l [] name t h n s lower (below_tree ne e) = absurd (ne refl)
merged_at-resolve_layer l (w ∷ ws) name t h n s lower (below_tree ne e) =
    Agrees-node l (w ∷ ws) name t none n lower
      (descend-render (w ∷ ws) name t h n ∙ descend_by-missing w ws name t e)
      (rw (children_at-render (w ∷ ws) t h, no_children w ws t e) refl)
      (rw (children_at-render (w ∷ ws) t h, no_children w ws t e) refl)
