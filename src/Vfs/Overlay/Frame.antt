-- ===== src/Vfs/Overlay/Frame.antt =====
-- src/vfs/overlay_tree.rs: what the methods that edit one name of a parent leave alone, and what they leave there.
use rust_bash.Prelude.{
  ◌≡◌, refl, arith, List, [], ◌∷◌, Bool, true, false, ◌&&◌, Option, none, some, Result, ok,
}
use rust_bash.Prelude.Bytes.{Bytes, beq, beq_iff}
use rust_bash.Vfs.Path.{VfsError}
use rust_bash.Vfs.Overlay.Node.{
  UpperNode, upper_file, upper_dir, upper_symlink, whiteout, UpperChildren, get_child,
}
use rust_bash.Vfs.Overlay.Node.Laws.{get_child-insert_child, get_child-insert_same}
use rust_bash.Vfs.Overlay.Tree.{
  Descend, found, descend_by, Edit, edit_beneath, with_parent_children, beneath, at_last,
}
use rust_bash.Vfs.Overlay.Resurrect.{is_prefix, same_child, together}

-- Neither path stands above the other.
abbrev pub Apart : List Bytes → List Bytes → Type 0
Apart p q = (is_prefix p q ≡ false) × (is_prefix q p ≡ false)

-- An edit of one name leaves the others as they are.
abbrev pub KeepsOthers : {A : Type 0} → (Bytes → UpperChildren → Edit A) → Type 0
KeepsOthers f =
    (name j : Bytes) (ch : UpperChildren)
    → beq j name ≡ false
    → get_child j (f name ch).0 ≡ get_child j ch

pub descend_by-child :
    (s : Bytes) (q : List Bytes) (a b : UpperChildren)
    → get_child s a ≡ get_child s b
    → descend_by (s ∷ q) a ≡ descend_by (s ∷ q) b
unfolding descend_by
descend_by-child s [] a b e = rw e refl
descend_by-child s (u ∷ q) a b e = rw e refl

pub other_name : (s seg : Bytes) (b : Bool) → b ≡ true → beq s seg && b ≡ false → beq s seg ≡ false
other_name s seg b e h = ground arith

pub beq_sym : (s seg : Bytes) → beq s seg ≡ beq seg s
beq_sym s seg = ground (arith, beq_iff s seg, beq_iff seg s)

-- The edit goes through the node `o` that stands at `seg`.
edit_beneath-other :
    {A : Type 0} (path j seg : Bytes) (next : UpperChildren → Edit A) (ch : UpperChildren)
    (o : Option UpperNode)
    → beq j seg ≡ false
    → get_child j (edit_beneath path seg next ch o).0 ≡ get_child j ch
edit_beneath-other path j seg next ch none h = refl
edit_beneath-other path j seg next ch (some whiteout) h = refl
edit_beneath-other path j seg next ch (some (upper_dir inner m t)) h =
    ground (arith, get_child-insert_child j seg (upper_dir (next inner).0 m t) ch)
edit_beneath-other path j seg next ch (some (upper_file _ _ _)) h = refl
edit_beneath-other path j seg next ch (some (upper_symlink _ _)) h = refl

-- The node that it leaves there.
abbrev pub edited : {A : Type 0} → (UpperChildren → Edit A) → Option UpperNode → Option UpperNode
edited next (some (upper_dir inner m t)) = some (upper_dir (next inner).0 m t)
edited next none = none
edited next (some whiteout) = some whiteout
edited next (some (upper_file c m t)) = some (upper_file c m t)
edited next (some (upper_symlink l t)) = some (upper_symlink l t)

pub edit_beneath-same :
    {A : Type 0} (path j seg : Bytes) (next : UpperChildren → Edit A) (ch : UpperChildren)
    (o : Option UpperNode)
    → beq j seg ≡ true
    → get_child j ch ≡ o
    → get_child j (edit_beneath path seg next ch o).0 ≡ edited next o
edit_beneath-same path j seg next ch none h e = e
edit_beneath-same path j seg next ch (some whiteout) h e = e
edit_beneath-same path j seg next ch (some (upper_dir inner m t)) h e =
    get_child-insert_same j seg _ ch h
edit_beneath-same path j seg next ch (some (upper_file _ _ _)) h e = e
edit_beneath-same path j seg next ch (some (upper_symlink _ _)) h e = e

beneath-edited :
    {A : Type 0} (q : List Bytes) (next : UpperChildren → Edit A) (o : Option UpperNode)
    → ((ch : UpperChildren) → descend_by q (next ch).0 ≡ descend_by q ch)
    → beneath (descend_by q) (edited next o) ≡ beneath (descend_by q) o
beneath-edited q next none same = refl
beneath-edited q next (some whiteout) same = refl
beneath-edited q next (some (upper_dir inner m t)) same = same inner
beneath-edited q next (some (upper_file _ _ _)) same = refl
beneath-edited q next (some (upper_symlink _ _)) same = refl

-- One step down the path, for a path that goes on behind the name `s`.
step_apart :
    {A : Type 0} (b : Bool) (path s seg u : Bytes) (q : List Bytes) (next : UpperChildren → Edit A)
    (ch : UpperChildren)
    → beq s seg ≡ b
    → (b ≡ true
        → (inner : UpperChildren) → descend_by (u ∷ q) (next inner).0 ≡ descend_by (u ∷ q) inner)
    → descend_by (s ∷ u ∷ q) (edit_beneath path seg next ch (get_child seg ch)).0
      ≡ descend_by (s ∷ u ∷ q) ch
unfolding descend_by
step_apart false path s seg u q next ch e same =
    rw (edit_beneath-other path s seg next ch (get_child seg ch) e) refl
step_apart true path s seg u q next ch e same =
    let here = same_child s seg ch e in
    rw (edit_beneath-same path s seg next ch (get_child seg ch) e here, here)
      (beneath-edited (u ∷ q) next (get_child seg ch) (same refl))

pub with_parent_children-Apart :
    {A : Type 0} (path : Bytes) (p q : List Bytes) (f : Bytes → UpperChildren → Edit A)
    (ch : UpperChildren)
    → KeepsOthers f
    → Apart p q
    → descend_by q (with_parent_children path p f ch).0 ≡ descend_by q ch
unfolding with_parent_children is_prefix
with_parent_children-Apart path [] q f ch keeps h = refl
with_parent_children-Apart path (seg ∷ p) [] f ch keeps (h, k) = cc
with_parent_children-Apart path (seg ∷ []) (s ∷ q) f ch keeps (h, k) =
    descend_by-child s q (f seg ch).0 ch
      (keeps seg s ch (rw (beq_sym s seg) (other_name seg s true refl h)))
with_parent_children-Apart path (seg ∷ t ∷ p) (s ∷ []) f ch keeps (h, k) =
    descend_by-child s [] _ ch (
      edit_beneath-other path s seg (with_parent_children path (t ∷ p) f) ch (get_child seg ch)
        (other_name s seg true refl k))
with_parent_children-Apart path (seg ∷ t ∷ p) (s ∷ u ∷ q) f ch keeps (h, k) =
    step_apart (beq s seg) path s seg u q (with_parent_children path (t ∷ p) f) ch refl (λ e inner.
      with_parent_children-Apart path (t ∷ p) (u ∷ q) f inner keeps (
        together (beq seg s) (is_prefix (t ∷ p) (u ∷ q)) h (rw (beq_sym seg s) e),
        together (beq s seg) (is_prefix (u ∷ q) (t ∷ p)) k e,
      ))

-- The edit of a name in its parent: what is read at the path before it and after it.
pub record Reached {A : Type 0} (f : Bytes → UpperChildren → Edit A) (r : Result A VfsError)
    (before after : Descend) : Type 0 where
  pub name : Bytes
  pub inner : UpperChildren
  pub gives : (f name inner).1 ≡ r
  pub was : before ≡ at_last (get_child name inner)
  pub is : after ≡ at_last (get_child name (f name inner).0)

beneath-Reached :
    {A : Type 0} (f : Bytes → UpperChildren → Edit A) (v : A) (path s seg : Bytes) (q : List Bytes)
    (next : UpperChildren → Edit A) (ch : UpperChildren) (o : Option UpperNode)
    → (edit_beneath path seg next ch o).1 ≡ ok v
    → ((inner : UpperChildren)
        → (next inner).1 ≡ ok v
        → Reached f (ok v) (descend_by (s ∷ q) inner) (descend_by (s ∷ q) (next inner).0))
    → Reached f
        (ok v)
        (beneath (descend_by (s ∷ q)) o)
        (beneath (descend_by (s ∷ q)) (edited next o))
beneath-Reached f v path s seg q next ch none h reach = cc
beneath-Reached f v path s seg q next ch (some whiteout) h reach = cc
beneath-Reached f v path s seg q next ch (some (upper_dir inner m t)) h reach = reach inner h
beneath-Reached f v path s seg q next ch (some (upper_file _ _ _)) h reach = cc
beneath-Reached f v path s seg q next ch (some (upper_symlink _ _)) h reach = cc

-- A method that succeeds has reached the parent.
pub with_parent_children-Reached :
    {A : Type 0} (path seg : Bytes) (p : List Bytes) (f : Bytes → UpperChildren → Edit A) (v : A)
    (ch : UpperChildren)
    → (with_parent_children path (seg ∷ p) f ch).1 ≡ ok v
    → Reached f
        (ok v)
        (descend_by (seg ∷ p) ch)
        (descend_by (seg ∷ p) (with_parent_children path (seg ∷ p) f ch).0)
unfolding with_parent_children descend_by
with_parent_children-Reached path seg [] f v ch h = record {
  name = seg;
  inner = ch;
  gives = h;
  was = refl;
  is = refl;
}
with_parent_children-Reached path seg (s ∷ p) f v ch h =
    rw
      (edit_beneath-same path seg seg (with_parent_children path (s ∷ p) f) ch (get_child seg ch)
        ((beq_iff seg seg).1 refl) refl)
      (beneath-Reached f v path s seg p (with_parent_children path (s ∷ p) f) ch (get_child seg ch)
        h (λ inner k. with_parent_children-Reached path s p f v inner k))

beneath-Reached_found :
    {A : Type 0} (f : Bytes → UpperChildren → Edit A) (node : UpperNode) (path s seg : Bytes)
    (q : List Bytes) (next : UpperChildren → Edit A) (ch : UpperChildren) (o : Option UpperNode)
    → beneath (descend_by (s ∷ q)) o ≡ found node
    → ((inner : UpperChildren)
        → descend_by (s ∷ q) inner ≡ found node
        → Reached f (next inner).1 (descend_by (s ∷ q) inner) (descend_by (s ∷ q) (next inner).0))
    → Reached f
        (edit_beneath path seg next ch o).1
        (beneath (descend_by (s ∷ q)) o)
        (beneath (descend_by (s ∷ q)) (edited next o))
beneath-Reached_found f node path s seg q next ch none h reach = cc
beneath-Reached_found f node path s seg q next ch (some whiteout) h reach = cc
beneath-Reached_found f node path s seg q next ch (some (upper_dir inner m t)) h reach =
    reach inner h
beneath-Reached_found f node path s seg q next ch (some (upper_file _ _ _)) h reach = cc
beneath-Reached_found f node path s seg q next ch (some (upper_symlink _ _)) h reach = cc

-- A method reaches the parent of a node that is there.
pub with_parent_children-Reached_found :
    {A : Type 0} (path seg : Bytes) (p : List Bytes) (f : Bytes → UpperChildren → Edit A)
    (node : UpperNode) (ch : UpperChildren)
    → descend_by (seg ∷ p) ch ≡ found node
    → Reached f
        (with_parent_children path (seg ∷ p) f ch).1
        (descend_by (seg ∷ p) ch)
        (descend_by (seg ∷ p) (with_parent_children path (seg ∷ p) f ch).0)
unfolding with_parent_children descend_by
with_parent_children-Reached_found path seg [] f node ch h = record {
  name = seg;
  inner = ch;
  gives = refl;
  was = refl;
  is = refl;
}
with_parent_children-Reached_found path seg (s ∷ p) f node ch h =
    rw
      (edit_beneath-same path seg seg (with_parent_children path (s ∷ p) f) ch (get_child seg ch)
        ((beq_iff seg seg).1 refl) refl)
      (beneath-Reached_found f node path s seg p (with_parent_children path (s ∷ p) f) ch
        (get_child seg ch) h
        (λ inner k. with_parent_children-Reached_found path s p f node inner k))
