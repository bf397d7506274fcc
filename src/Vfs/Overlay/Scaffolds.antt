-- ===== src/Vfs/Overlay/Scaffolds.antt =====
-- src/vfs/overlay.rs: `subtree_has_content`, the loop with a stack, is the search of the tree.
use rust_bash.Prelude.{
  ◌≡◌, refl, arith, ℕ, zero, suc, ◌+◌, ◌<◌, List, [], ◌∷◌, Bool, true, false, ◌||◌,
}
use rust_bash.Vfs.Overlay.Node.{
  UpperNode, upper_file, upper_dir, upper_symlink, whiteout, UpperChildren, upper_leaf, upper_entry,
}
use rust_bash.Vfs.Overlay.Tree.Listing.{node_count, children_count}
use rust_bash.Vfs.Overlay.Diff.{nodes_onto, content_loop, subtree_has_content}

unfoldable mutual
  -- A node that is no whiteout, but for directories, or one below it.
  pub node_has : UpperNode → Bool
  node_has (upper_dir ch m t) = children_have ch
  node_has (upper_file c m t) = true
  node_has (upper_symlink l t) = true
  node_has whiteout = false

  pub children_have : UpperChildren → Bool
  children_have upper_leaf = false
  children_have (upper_entry name node rest) = node_has node || children_have rest

unfoldable any_of : List UpperNode → Bool
unfolding node_has
any_of [] = false
any_of (node ∷ stack) = node_has node || any_of stack

unfoldable count_of : List UpperNode → ℕ
unfolding node_count
count_of [] = 0
count_of (node ∷ stack) = node_count node + count_of stack

any_of-nodes_onto :
    (ch : UpperChildren) (stack : List UpperNode)
    → any_of (nodes_onto ch stack) ≡ (children_have ch || any_of stack)
unfolding any_of nodes_onto children_have
any_of-nodes_onto upper_leaf stack = refl
any_of-nodes_onto (upper_entry name node rest) stack =
    ground (arith, any_of-nodes_onto rest (node ∷ stack))

count_of-nodes_onto :
    (ch : UpperChildren) (stack : List UpperNode)
    → count_of (nodes_onto ch stack) ≡ children_count ch + count_of stack
unfolding count_of nodes_onto children_count
count_of-nodes_onto upper_leaf stack = omega arith
count_of-nodes_onto (upper_entry name node rest) stack =
    omega (arith, count_of-nodes_onto rest (node ∷ stack))

content_loop-any_of :
    (fuel : ℕ) (stack : List UpperNode)
    → count_of stack < fuel
    → content_loop fuel stack ≡ any_of stack
unfolding content_loop any_of count_of node_count node_has
content_loop-any_of zero stack h = absurd (omega arith)
content_loop-any_of (suc fuel) [] h = refl
content_loop-any_of (suc fuel) (whiteout ∷ stack) h = content_loop-any_of fuel stack (omega arith)
content_loop-any_of (suc fuel) (upper_dir ch m t ∷ stack) h =
    rw
      (
        content_loop-any_of fuel (nodes_onto ch stack)
            (omega (arith, count_of-nodes_onto ch stack)),
        any_of-nodes_onto ch stack,
      )
      refl
content_loop-any_of (suc fuel) (upper_file c m t ∷ stack) h = refl
content_loop-any_of (suc fuel) (upper_symlink l t ∷ stack) h = refl

or_false : (b : Bool) → (b || false) ≡ b
or_false b = ground arith

-- The loop with a stack has enough rounds, and finds content just where there is a file or a link in the subtree.
pub subtree_has_content-children_have :
    (ch : UpperChildren) → subtree_has_content ch ≡ children_have ch
unfolding subtree_has_content any_of count_of
subtree_has_content-children_have ch =
    rw
      (
        content_loop-any_of (suc (children_count ch)) (nodes_onto ch [])
            (omega (arith, count_of-nodes_onto ch [])),
        any_of-nodes_onto ch [],
        or_false (children_have ch),
      )
      refl
