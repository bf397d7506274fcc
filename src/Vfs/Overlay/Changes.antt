-- ===== src/Vfs/Overlay/Changes.antt =====
-- src/vfs/overlay.rs: `diff` loses nothing of the upper tree.
use Prim.Native.Nat.{Ordering}
use rust_bash.Prelude.{
  ◌≡◌, refl, sym, arith, ◌∙◌, ℕ, List, [], ◌∷◌, ◌++◌, Bool, true, false, Option, none, some, push,
  if◌then◌else◌, append_assoc, append-nil, All-push, ap,
}
use rust_bash.Prelude.Bytes.{Bytes, beq, beq_iff}
use rust_bash.Vfs.Path.{slash, vfs_join, join}
use rust_bash.Vfs.Path.Names.{IsName, Names, render}
use rust_bash.Vfs.Path.Laws.{vfs_join-render}
use rust_bash.Vfs.Mount.Table.{lex}
use rust_bash.Vfs.Memory.Operations.Files.{file_type}
use rust_bash.Vfs.Overlay.Node.{
  UpperNode, upper_file, upper_dir, upper_symlink, whiteout, UpperChildren, upper_leaf, upper_entry,
  get_child,
}
use rust_bash.Vfs.Overlay.Tree.{found, descend_by, descend, beneath, at_last, path_segments}
use rust_bash.Vfs.Overlay.Tree.Listing.{Visit, walk}
use rust_bash.Vfs.Overlay.Walks.{preorder, preorder_children, walk-preorder}
use rust_bash.Vfs.Overlay.Merged.{path_segments-render}
use rust_bash.Vfs.Overlay.Layers.{Lower}
use rust_bash.Vfs.Overlay.Diff.{OverlayWrite, write_of, writes_of, place, sort_by_path, diff}

pub data IsIn {A : Type 0} (x : A) : List A → Type 0 where
  at_head : {ys : List A} → IsIn x (x ∷ ys)
  in_tail : {y : A} {ys : List A} → IsIn x ys → IsIn x (y ∷ ys)

IsIn-left : {A : Type 0} (x : A) (xs ys : List A) → IsIn x xs → IsIn x (xs ++ ys)
IsIn-left x [] ys h = elim h [ ]
IsIn-left x (_ ∷ xs) ys at_head = at_head
IsIn-left x (_ ∷ xs) ys (in_tail h) = in_tail (IsIn-left x xs ys h)

IsIn-right : {A : Type 0} (x : A) (xs ys : List A) → IsIn x ys → IsIn x (xs ++ ys)
IsIn-right x [] ys h = h
IsIn-right x (_ ∷ xs) ys h = in_tail (IsIn-right x xs ys h)

-- A path's names under a directory, joined one by one.
joined : Bytes → List Bytes → Bytes
joined base [] = base
joined base (name ∷ names) = joined (vfs_join base name) names

preorder_self : (path : Bytes) (node : UpperNode) → IsIn (path, node) (preorder path node)
unfolding preorder
preorder_self path (upper_dir ch m t) = at_head
preorder_self path (upper_file c m t) = at_head
preorder_self path (upper_symlink l t) = at_head
preorder_self path whiteout = at_head

child_at :
    (b : Bool) (x : Visit) (base name n : Bytes) (v w : UpperNode) (rest : UpperChildren)
    → beq name n ≡ b
    → (if beq name n then some w else get_child name rest) ≡ some v
    → IsIn x (preorder (vfs_join base name) v)
    → (get_child name rest ≡ some v → IsIn x (preorder_children base rest))
    → IsIn x (preorder (vfs_join base n) w ++ preorder_children base rest)
child_at true x base name n v w rest e h k go_on =
    let same_name : n ≡ name = ground (arith, beq_iff name n) in
    let same_node : w ≡ v = ground arith in
    IsIn-left x (preorder (vfs_join base n) w) (preorder_children base rest)
      (rw (same_name, same_node) k)
child_at false x base name n v w rest e h k go_on =
    IsIn-right x (preorder (vfs_join base n) w) (preorder_children base rest) (go_on (ground arith))

at_last-found : (o : Option UpperNode) (node : UpperNode) → at_last o ≡ found node → o ≡ some node
at_last-found none node h = cc
at_last-found (some v) node h = cc

-- A child's walk is part of the walk of its directory.
preorder-child :
    (x : Visit) (base name : Bytes) (v : UpperNode) (ch : UpperChildren)
    → get_child name ch ≡ some v
    → IsIn x (preorder (vfs_join base name) v)
    → IsIn x (preorder_children base ch)
unfolding get_child preorder
preorder-child x base name v upper_leaf h k = cc
preorder-child x base name v (upper_entry n w rest) h k =
    child_at (beq name n) x base name n v w rest refl h k
      (λ e. preorder-child x base name v rest e k)

-- Below a directory that stands at `seg`.
below_found :
    (x : Visit) (q : List Bytes) (base seg : Bytes) (ch : UpperChildren) (node : UpperNode)
    (o : Option UpperNode)
    → get_child seg ch ≡ o
    → beneath (descend_by q) o ≡ found node
    → ((inner : UpperChildren)
        → descend_by q inner ≡ found node
        → IsIn x (preorder_children (vfs_join base seg) inner))
    → IsIn x (preorder_children base ch)
unfolding preorder
below_found x q base seg ch node none e h f = cc
below_found x q base seg ch node (some whiteout) e h f = cc
below_found x q base seg ch node (some (upper_dir inner m t)) e h f =
    preorder-child x base seg (upper_dir inner m t) ch e (in_tail (f inner h))
below_found x q base seg ch node (some (upper_file _ _ _)) e h f = cc
below_found x q base seg ch node (some (upper_symlink _ _)) e h f = cc

preorder-found :
    (seg : Bytes) (segs : List Bytes) (base : Bytes) (ch : UpperChildren) (node : UpperNode)
    → descend_by (seg ∷ segs) ch ≡ found node
    → IsIn (joined base (seg ∷ segs), node) (preorder_children base ch)
unfolding descend_by joined preorder
preorder-found seg [] base ch node h =
    preorder-child (vfs_join base seg, node) base seg node ch
      (at_last-found (get_child seg ch) node h) (preorder_self (vfs_join base seg) node)
preorder-found seg (s ∷ segs) base ch node h =
    below_found (joined base (seg ∷ s ∷ segs), node) (s ∷ segs) base seg ch node (get_child seg ch)
      refl h (λ inner k. preorder-found s segs (vfs_join base seg) inner node k)

-- The names joined to a normalised path give the normalised path with them behind.
joined-render :
    (ws names : List Bytes)
    → Names ws
    → Names names
    → joined (render ws) names ≡ render (ws ++ names)
unfolding joined
joined-render ws [] h k = rw (append-nil ws) refl
joined-render ws (name ∷ names) h (n, k) = rw (vfs_join-render ws name h n) (
    joined-render (push ws name) names (All-push IsName ws h n) k
    ∙ ap render (append_assoc ws (name ∷ []) names))

swapped :
    {A : Type 0} (key : A → Bytes) (x y z : A) (zs : List A)
    → IsIn x (y ∷ z ∷ zs)
    → (IsIn x (y ∷ zs) → IsIn x (place key y zs))
    → IsIn x (z ∷ place key y zs)
swapped key x _ z zs at_head f = in_tail (f at_head)
swapped key x y _ zs (in_tail at_head) f = at_head
swapped key x y z zs (in_tail (in_tail h)) f = in_tail (f (in_tail h))

place-IsIn_at :
    {A : Type 0} (o : Ordering) (key : A → Bytes) (x y z : A) (zs : List A)
    → lex (path_segments (key y)) (path_segments (key z)) ≡ o
    → IsIn x (y ∷ z ∷ zs)
    → (IsIn x (y ∷ zs) → IsIn x (place key y zs))
    → IsIn x (place key y (z ∷ zs))
unfolding place
place-IsIn_at Ordering.lt key x y z zs e h f = rw (place, e) h
place-IsIn_at Ordering.eq key x y z zs e h f = rw (place, e) h
place-IsIn_at Ordering.gt key x y z zs e h f = rw (place, e) (swapped key x y z zs h f)

place-IsIn :
    {A : Type 0} (key : A → Bytes) (x y : A) (ys : List A)
    → IsIn x (y ∷ ys)
    → IsIn x (place key y ys)
unfolding place
place-IsIn key x y [] h = h
place-IsIn key x y (z ∷ zs) h = place-IsIn_at _ key x y z zs refl h (place-IsIn key x y zs)

sort_by_path-IsIn :
    {A : Type 0} (key : A → Bytes) (x : A) (xs : List A) → IsIn x xs → IsIn x (sort_by_path key xs)
unfolding sort_by_path
sort_by_path-IsIn key x [] h = elim h [ ]
sort_by_path-IsIn key x (_ ∷ ys) at_head = place-IsIn key x x (sort_by_path key ys) at_head
sort_by_path-IsIn key x (y ∷ ys) (in_tail h) =
    place-IsIn key x y (sort_by_path key ys) (in_tail (sort_by_path-IsIn key x ys h))

writes_of-IsIn :
    (x : OverlayWrite) (visit : Visit) (visits : List Visit)
    → IsIn x (write_of visit)
    → IsIn visit visits
    → IsIn x (writes_of visits)
unfolding writes_of
writes_of-IsIn x visit [] h k = elim k [ ]
writes_of-IsIn x visit (_ ∷ visits) h at_head = IsIn-left x (write_of visit) (writes_of visits) h
writes_of-IsIn x visit (v ∷ visits) h (in_tail k) =
    IsIn-right x (write_of v) (writes_of visits) (writes_of-IsIn x visit visits h k)

root_joined :
    (w : Bytes) (ws : List Bytes) → Names (w ∷ ws) → joined (slash ∷ []) (w ∷ ws) ≡ render (w ∷ ws)
unfolding join
root_joined w ws n = joined-render [] (w ∷ ws) tt n

walk-found :
    (w : Bytes) (ws : List Bytes) (node : UpperNode) (t : UpperChildren)
    → Names (w ∷ ws)
    → descend (render (w ∷ ws)) t ≡ found node
    → IsIn (render (w ∷ ws), node) (walk t)
unfolding descend
walk-found w ws node t n h =
    let here : descend_by (w ∷ ws) t ≡ found node = rw (path_segments-render (w ∷ ws) n) at h in
    rw ((walk-preorder t).0, sym (root_joined w ws n))
      (preorder-found w ws (slash ∷ []) t node here)

-- Every file found in the upper tree at a normalised path is in the writes of diff, with its path, content and mode.
pub diff-descend :
    (l : Lower) (w : Bytes) (ws : List Bytes) (content : Bytes) (mode mtime : ℕ) (t : UpperChildren)
    → Names (w ∷ ws)
    → descend (render (w ∷ ws)) t ≡ found (upper_file content mode mtime)
    → IsIn
        (record { path = render (w ∷ ws); node_type = file_type; content = content; mode = mode })
        (diff l t).writes
unfolding diff
diff-descend l w ws content mode mtime t n h =
    sort_by_path-IsIn (λ w. w.path) _ (writes_of (walk t))
      (writes_of-IsIn _ (render (w ∷ ws), upper_file content mode mtime) (walk t) at_head
        (walk-found w ws (upper_file content mode mtime) t n h))
