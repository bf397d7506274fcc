-- ===== src/Vfs/Overlay/Hidden.antt =====
-- src/vfs/overlay.rs: what a removal hides, in both layers.
use rust_bash.Prelude.{◌≡◌, ◌≢◌, refl, arith, List, [], ◌∷◌, Bool, true, false, Option, none, some}
use rust_bash.Prelude.Bytes.{Bytes, beq}
use rust_bash.Vfs.Node.{Time}
use rust_bash.Vfs.Overlay.Node.{
  UpperNode, upper_file, upper_dir, upper_symlink, whiteout, UpperChildren, get_child, remove_child,
}
use rust_bash.Vfs.Overlay.Node.Laws.{get_child-remove_child}
use rust_bash.Vfs.Overlay.Tree.{
  Descend, found, missing, blocked, not_dir, descend_by, descend, beneath, content, Edit,
  path_segments, with_parent_children, remove_name, put_whiteout, detach,
}
use rust_bash.Vfs.Overlay.Resurrect.{is_prefix, same_child}
use rust_bash.Vfs.Overlay.Frame.{edit_beneath-same, edited, beq_sym}
use rust_bash.Vfs.Overlay.Whiteout.{is_invisible, put_whiteout-invisible, both}
use rust_bash.Vfs.Overlay.Layers.{
  Lower, lower_exists, LayerResult, in_whiteout, in_upper, in_lower, in_neither, layer_of,
  resolve_layer,
}
use rust_bash.Vfs.Overlay.Writes.{lower_mode_of}
use rust_bash.Vfs.Overlay.Removal.{hide}

beneath-no_content :
    {A : Type 0} (q : List Bytes) (next : UpperChildren → Edit A) (o : Option UpperNode)
    → ((inner : UpperChildren) → content (descend_by q (next inner).0) ≡ none)
    → content (beneath (descend_by q) (edited next o)) ≡ none
beneath-no_content q next none h = refl
beneath-no_content q next (some whiteout) h = refl
beneath-no_content q next (some (upper_dir inner m t)) h = h inner
beneath-no_content q next (some (upper_file _ _ _)) h = refl
beneath-no_content q next (some (upper_symlink _ _)) h = refl

no_child :
    (s : Bytes) (q : List Bytes) (ch : UpperChildren)
    → get_child s ch ≡ none
    → content (descend_by (s ∷ q) ch) ≡ none
unfolding descend_by
no_child s [] ch h = rw h refl
no_child s (u ∷ q) ch h = rw h refl

-- Nothing is found at a path that is taken out, or below it.
remove_name-content :
    (path seg : Bytes) (p q : List Bytes) (ch : UpperChildren)
    → is_prefix (seg ∷ p) q ≡ true
    → content (descend_by q (with_parent_children path (seg ∷ p) remove_name ch).0) ≡ none
unfolding with_parent_children is_prefix descend_by
remove_name-content path seg p [] ch h = cc
remove_name-content path seg [] (s ∷ q) ch h =
    no_child s q (remove_child seg ch)
      (ground (arith, get_child-remove_child s seg ch, beq_sym s seg, both (beq seg s) true h))
remove_name-content path seg (t ∷ p) (s ∷ []) ch h = ground arith
remove_name-content path seg (t ∷ p) (s ∷ u ∷ q) ch h =
    let here : beq s seg ≡ true =
      rw (beq_sym s seg) (both (beq seg s) (is_prefix (t ∷ p) (u ∷ q)) h).0 in
    rw
      (edit_beneath-same path s seg (with_parent_children path (t ∷ p) remove_name) ch
        (get_child seg ch) here (same_child s seg ch here))
      (beneath-no_content (u ∷ q) (with_parent_children path (t ∷ p) remove_name) (get_child seg ch)
        (λ inner.
          remove_name-content path t p (u ∷ q) inner
            (both (beq seg s) (is_prefix (t ∷ p) (u ∷ q)) h).1))

detach_by-content :
    (path : Bytes) (p q : List Bytes) (ch : UpperChildren)
    → p ≢ []
    → is_prefix p q ≡ true
    → content (descend_by q (with_parent_children path p remove_name ch).0) ≡ none
detach_by-content path [] q ch n h = absurd (n refl)
detach_by-content path (seg ∷ p) q ch n h = remove_name-content path seg p q ch h

-- In neither layer, as far as the overlay shows.
abbrev pub is_hidden : LayerResult → Bool
is_hidden in_whiteout = true
is_hidden in_neither = true
is_hidden in_upper = false
is_hidden in_lower = false

pub invisible_is_hidden :
    (b : Bool) (d : Descend) → is_invisible d ≡ true → is_hidden (layer_of b d) ≡ true
invisible_is_hidden b blocked h = refl
invisible_is_hidden b not_dir h = refl
invisible_is_hidden b missing h = cc
invisible_is_hidden b (found whiteout) h = refl
invisible_is_hidden b (found (upper_file _ _ _)) h = cc
invisible_is_hidden b (found (upper_dir _ _ _)) h = cc
invisible_is_hidden b (found (upper_symlink _ _)) h = cc

no_content-is_hidden :
    (b : Bool) (d : Descend) → b ≡ false → content d ≡ none → is_hidden (layer_of b d) ≡ true
no_content-is_hidden b blocked k h = refl
no_content-is_hidden b not_dir k h = refl
no_content-is_hidden true missing k h = cc
no_content-is_hidden false missing k h = refl
no_content-is_hidden b (found whiteout) k h = refl
no_content-is_hidden b (found (upper_file _ _ _)) k h = cc
no_content-is_hidden b (found (upper_dir _ _ _)) k h = cc
no_content-is_hidden b (found (upper_symlink _ _)) k h = cc

-- A filesystem has no entry below a path that it does not have.
abbrev pub IsTree : Lower → Type 0
IsTree l =
    (above below : Bytes)
    → is_prefix (path_segments above) (path_segments below) ≡ true
    → lower_exists l below ≡ true
    → lower_exists l above ≡ true

absent : (a b : Bool) → a ≡ false → (b ≡ true → a ≡ true) → b ≡ false
absent a true h k = ground arith
absent a false h k = refl

is_hidden-hide_by :
    (b : Bool) (l : Lower) (norm below : Bytes) (now : Time) (t : UpperChildren)
    → lower_exists l norm ≡ b
    → IsTree l
    → path_segments norm ≢ []
    → is_prefix (path_segments norm) (path_segments below) ≡ true
    → is_hidden (resolve_layer l below (hide l norm now t)) ≡ true
unfolding hide resolve_layer detach descend
is_hidden-hide_by true l norm below now t e tree n h = rw e (
    invisible_is_hidden (lower_exists l below)
      (descend below (put_whiteout norm (lower_mode_of l) now t))
      (put_whiteout-invisible norm below (lower_mode_of l) now t n h))
is_hidden-hide_by false l norm below now t e tree n h = rw e (
    no_content-is_hidden (lower_exists l below) (descend below (detach norm t))
      (absent (lower_exists l norm) (lower_exists l below) e (tree norm below h))
      (detach_by-content norm (path_segments norm) (path_segments below) t n h))

pub is_hidden-hide :
    (l : Lower) (norm below : Bytes) (now : Time) (t : UpperChildren)
    → IsTree l
    → path_segments norm ≢ []
    → is_prefix (path_segments norm) (path_segments below) ≡ true
    → is_hidden (resolve_layer l below (hide l norm now t)) ≡ true
is_hidden-hide l norm below now t = is_hidden-hide_by (lower_exists l norm) l norm below now t refl
