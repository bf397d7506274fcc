-- ===== src/Vfs/Overlay/Walks.antt =====
-- src/vfs/overlay_tree.rs: the walks with a stack are the recursive walks of the tree.
use rust_bash.Prelude.{
  ◌≡◌, refl, arith, ℕ, zero, suc, ◌+◌, List, [], ◌∷◌, ◌++◌, append_assoc, append-nil, Bool, true,
  false,
}
use rust_bash.Prelude.Bytes.{Bytes}
use rust_bash.Vfs.Path.{slash, vfs_join}
use rust_bash.Vfs.Overlay.Node.{
  UpperNode, upper_file, upper_dir, upper_symlink, whiteout, UpperChildren, upper_leaf, upper_entry,
}
use rust_bash.Vfs.Overlay.Tree.Listing.{
  Visit, push_children, push_inner, walk_loop, push_fresh, push_fresh_inner, walk_post_loop,
  node_count, children_count, walk, walk_post,
}

unfoldable mutual
  -- A node and what is below it, the node first.
  pub preorder : Bytes → UpperNode → List Visit
  preorder path (upper_dir ch m t) = (path, upper_dir ch m t) ∷ preorder_children path ch
  preorder path (upper_file c m t) = (path, upper_file c m t) ∷ []
  preorder path (upper_symlink l t) = (path, upper_symlink l t) ∷ []
  preorder path whiteout = (path, whiteout) ∷ []

  pub preorder_children : Bytes → UpperChildren → List Visit
  preorder_children path upper_leaf = []
  preorder_children path (upper_entry name node rest) =
      preorder (vfs_join path name) node ++ preorder_children path rest

unfoldable mutual
  -- A node after what is below it.
  pub postorder : Bytes → UpperNode → List Visit
  postorder path (upper_dir ch m t) = postorder_children path ch ++ ((path, upper_dir ch m t) ∷ [])
  postorder path (upper_file c m t) = (path, upper_file c m t) ∷ []
  postorder path (upper_symlink l t) = (path, upper_symlink l t) ∷ []
  postorder path whiteout = (path, whiteout) ∷ []

  pub postorder_children : Bytes → UpperChildren → List Visit
  postorder_children path upper_leaf = []
  postorder_children path (upper_entry name node rest) =
      postorder (vfs_join path name) node ++ postorder_children path rest

add_assoc : (a b c : ℕ) → (a + b) + c ≡ a + (b + c)
add_assoc a b c = omega arith

suc_add : (n m : ℕ) → suc n + m ≡ suc (n + m)
suc_add n m = omega arith

zero_add : (m : ℕ) → 0 + m ≡ m
zero_add m = omega arith

walk_loop-step :
    (path : Bytes) (node : UpperNode) (n fuel : ℕ) (stack : List Visit)
    → walk_loop (suc n + fuel) ((path, node) ∷ stack)
      ≡ (path, node) ∷ walk_loop (n + fuel) (push_inner path node stack)
unfolding walk_loop
walk_loop-step path node n fuel stack = rw (suc_add n fuel) refl

-- Enough fuel for the nodes of a tree walks them in order.
mutual
  unfolding node_count preorder push_children

  walk_loop-node :
      (path : Bytes) (node : UpperNode) (fuel : ℕ) (stack : List Visit)
      → walk_loop (node_count node + fuel) ((path, node) ∷ stack)
        ≡ preorder path node ++ walk_loop fuel stack
  walk_loop-node path (upper_dir ch m t) fuel stack =
      rw
        (
          walk_loop-step path (upper_dir ch m t) (children_count ch) fuel stack,
          walk_loop-children path ch fuel stack,
        )
        refl
  walk_loop-node path (upper_file c m t) fuel stack =
      rw (walk_loop-step path (upper_file c m t) 0 fuel stack, zero_add fuel) refl
  walk_loop-node path (upper_symlink l t) fuel stack =
      rw (walk_loop-step path (upper_symlink l t) 0 fuel stack, zero_add fuel) refl
  walk_loop-node path whiteout fuel stack =
      rw (walk_loop-step path whiteout 0 fuel stack, zero_add fuel) refl

  walk_loop-children :
      (path : Bytes) (ch : UpperChildren) (fuel : ℕ) (stack : List Visit)
      → walk_loop (children_count ch + fuel) (push_children path ch stack)
        ≡ preorder_children path ch ++ walk_loop fuel stack
  walk_loop-children path upper_leaf fuel stack = rw (zero_add fuel) refl
  walk_loop-children path (upper_entry name node rest) fuel stack =
      rw
        (
          add_assoc (node_count node) (children_count rest) fuel,
          walk_loop-node (vfs_join path name) node (children_count rest + fuel)
              (push_children path rest stack),
          walk_loop-children path rest fuel stack,
          append_assoc (preorder (vfs_join path name) node) (preorder_children path rest)
              (walk_loop fuel stack),
        )
        refl

walk_loop-done : (fuel : ℕ) → walk_loop fuel [] ≡ []
unfolding walk_loop
walk_loop-done zero = refl
walk_loop-done (suc fuel) = refl

-- A node of `walk_post` takes two rounds.
walk_post_loop-open :
    (path : Bytes) (node : UpperNode) (n fuel : ℕ) (stack : List (Visit × Bool))
    → walk_post_loop (suc n + fuel) (((path, node), false) ∷ stack)
      ≡ walk_post_loop (n + fuel) (push_fresh_inner path node (((path, node), true) ∷ stack))
unfolding walk_post_loop
walk_post_loop-open path node n fuel stack = rw (suc_add n fuel) refl

walk_post_loop-leaf :
    (visit : Visit) (fuel : ℕ) (stack : List (Visit × Bool))
    → walk_post_loop (1 + fuel) ((visit, true) ∷ stack) ≡ visit ∷ walk_post_loop fuel stack
unfolding walk_post_loop
walk_post_loop-leaf visit fuel stack = rw (suc_add 0 fuel, zero_add fuel) refl

doubled : (a b fuel : ℕ) → (a + b) + (a + b) + fuel ≡ (a + a) + ((b + b) + fuel)
doubled a b fuel = omega arith

doubled_suc : (n fuel : ℕ) → suc n + suc n + fuel ≡ suc (n + n) + (1 + fuel)
doubled_suc n fuel = omega arith

walk_post_loop-single :
    (path : Bytes) (node : UpperNode) (fuel : ℕ) (stack : List (Visit × Bool))
    → push_fresh_inner path node (((path, node), true) ∷ stack) ≡ ((path, node), true) ∷ stack
    → walk_post_loop (1 + 1 + fuel) (((path, node), false) ∷ stack)
      ≡ (path, node) ∷ walk_post_loop fuel stack
walk_post_loop-single path node fuel stack h =
    rw
      (
        doubled_suc 0 fuel,
        walk_post_loop-open path node 0 (1 + fuel) stack,
        zero_add (1 + fuel),
        h,
        walk_post_loop-leaf (path, node) fuel stack,
      )
      refl

mutual
  unfolding node_count postorder push_fresh

  walk_post_loop-node :
      (path : Bytes) (node : UpperNode) (fuel : ℕ) (stack : List (Visit × Bool))
      → walk_post_loop (node_count node + node_count node + fuel) (((path, node), false) ∷ stack)
        ≡ postorder path node ++ walk_post_loop fuel stack
  walk_post_loop-node path (upper_dir ch m t) fuel stack =
      rw
        (
          doubled_suc (children_count ch) fuel,
          walk_post_loop-open path (upper_dir ch m t) (children_count ch + children_count ch)
              (1 + fuel) stack,
          walk_post_loop-children path ch (1 + fuel) (((path, upper_dir ch m t), true) ∷ stack),
          walk_post_loop-leaf (path, upper_dir ch m t) fuel stack,
          append_assoc (postorder_children path ch) ((path, upper_dir ch m t) ∷ [])
              (walk_post_loop fuel stack),
        )
        refl
  walk_post_loop-node path (upper_file c m t) fuel stack =
      walk_post_loop-single path (upper_file c m t) fuel stack refl
  walk_post_loop-node path (upper_symlink l t) fuel stack =
      walk_post_loop-single path (upper_symlink l t) fuel stack refl
  walk_post_loop-node path whiteout fuel stack = walk_post_loop-single path whiteout fuel stack refl

  walk_post_loop-children :
      (path : Bytes) (ch : UpperChildren) (fuel : ℕ) (stack : List (Visit × Bool))
      → walk_post_loop (children_count ch + children_count ch + fuel) (push_fresh path ch stack)
        ≡ postorder_children path ch ++ walk_post_loop fuel stack
  walk_post_loop-children path upper_leaf fuel stack = rw (zero_add fuel) refl
  walk_post_loop-children path (upper_entry name node rest) fuel stack =
      rw
        (
          doubled (node_count node) (children_count rest) fuel,
          walk_post_loop-node (vfs_join path name) node
              (children_count rest + children_count rest + fuel) (push_fresh path rest stack),
          walk_post_loop-children path rest fuel stack,
          append_assoc (postorder (vfs_join path name) node) (postorder_children path rest)
              (walk_post_loop fuel stack),
        )
        refl

walk_post_loop-done : (fuel : ℕ) → walk_post_loop fuel [] ≡ []
unfolding walk_post_loop
walk_post_loop-done zero = refl
walk_post_loop-done (suc fuel) = refl

suc_last : (n : ℕ) → suc n ≡ n + 1
suc_last n = omega arith

-- The walks with a stack have enough fuel, and are the recursive walks: a node before what is below it, and after it.
pub walk-preorder :
    (ch : UpperChildren)
    → (walk ch ≡ preorder_children (slash ∷ []) ch)
      × (walk_post ch ≡ postorder_children (slash ∷ []) ch)
unfolding walk walk_post
walk-preorder ch = (
  rw
      (
        suc_last (children_count ch),
        walk_loop-children (slash ∷ []) ch 1 [],
        walk_loop-done 1,
        append-nil (preorder_children (slash ∷ []) ch),
      )
      refl,
  rw
      (
        suc_last (children_count ch + children_count ch),
        walk_post_loop-children (slash ∷ []) ch 1 [],
        walk_post_loop-done 1,
        append-nil (postorder_children (slash ∷ []) ch),
      )
      refl,
)
