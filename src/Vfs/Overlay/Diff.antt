-- ===== src/Vfs/Overlay/Diff.antt =====
-- src/vfs/overlay.rs: `diff`, the changes relative to the lower layer, and `sync`, which drops those that the lower layer
-- has by now.
use Prim.Native.Nat.{Ordering}
use rust_bash.Prelude.{
  ℕ, zero, suc, List, [], ◌∷◌, ◌++◌, Bool, true, false, ◌&&◌, not, if◌then◌else◌, Result, ok, err,
}
use rust_bash.Prelude.Bytes.{Bytes, beq}
use rust_bash.Vfs.Path.{VfsError}
use rust_bash.Vfs.Mount.Table.{lex}
use rust_bash.Vfs.Memory.Operations.Files.{NodeType, file_type, directory_type, symlink_type}
use rust_bash.Vfs.Overlay.Node.{
  UpperNode, upper_file, upper_dir, upper_symlink, whiteout, UpperChildren, upper_leaf, upper_entry,
}
use rust_bash.Vfs.Overlay.Tree.{
  Descend, found, missing, blocked, not_dir, descend, detach, path_segments,
}
use rust_bash.Vfs.Overlay.Tree.Listing.{Visit, children_count, walk, walk_post}
use rust_bash.Vfs.Overlay.Layers.{Lower, lower_exists, is_ok_and}

pub record OverlayWrite : Type 0 where
  pub path : Bytes
  pub node_type : NodeType
  pub content : Bytes
  pub mode : ℕ

pub record OverlayDiff : Type 0 where
  pub writes : List OverlayWrite
  pub deletions : List Bytes

-- The nodes of a directory on the stack, the last on top.
unfoldable pub nodes_onto : UpperChildren → List UpperNode → List UpperNode
nodes_onto upper_leaf stack = stack
nodes_onto (upper_entry name node rest) stack = nodes_onto rest (node ∷ stack)

-- `subtree_has_content`, a round for each node.
unfoldable pub content_loop : ℕ → List UpperNode → Bool
unfolding nodes_onto
content_loop zero stack = false
content_loop (suc fuel) [] = false
content_loop (suc fuel) (whiteout ∷ stack) = content_loop fuel stack
content_loop (suc fuel) (upper_dir children _ _ ∷ stack) =
    content_loop fuel (nodes_onto children stack)
content_loop (suc fuel) (upper_file _ _ _ ∷ stack) = true
content_loop (suc fuel) (upper_symlink _ _ ∷ stack) = true

unfoldable pub subtree_has_content : UpperChildren → Bool
unfolding content_loop nodes_onto children_count
subtree_has_content children = content_loop (suc (children_count children)) (nodes_onto children [])

abbrev pub is_leaf : UpperChildren → Bool
is_leaf upper_leaf = true
is_leaf (upper_entry name node rest) = false

-- The write that a visit makes, if it makes one.
abbrev pub write_of : Visit → List OverlayWrite
write_of (path, upper_file content mode _) =
    record { path = path; node_type = file_type; content = content; mode = mode } ∷ []
write_of (path, upper_dir children mode _) =
    if not (is_leaf children) && not (subtree_has_content children)
    then []
    else record { path = path; node_type = directory_type; content = []; mode = mode } ∷ []
write_of (path, upper_symlink target _) =
    record { path = path; node_type = symlink_type; content = target; mode = 0o777 } ∷ []
write_of (path, whiteout) = []

abbrev pub deletion_of : Lower → Visit → List Bytes
deletion_of l (path, whiteout) = if lower_exists l path then path ∷ [] else []
deletion_of l (path, upper_file _ _ _) = []
deletion_of l (path, upper_dir _ _ _) = []
deletion_of l (path, upper_symlink _ _) = []

unfoldable pub writes_of : List Visit → List OverlayWrite
unfolding subtree_has_content
writes_of [] = []
writes_of (visit ∷ visits) = write_of visit ++ writes_of visits

unfoldable pub deletions_of : Lower → List Visit → List Bytes
deletions_of l [] = []
deletions_of l (visit ∷ visits) = deletion_of l visit ++ deletions_of l visits

-- Paths are in the order of their components, and equal ones stay in their order.
unfoldable pub place : {A : Type 0} → (A → Bytes) → A → List A → List A
unfolding lex path_segments
place key x [] = x ∷ []
place key x (y ∷ ys) = elim (lex (path_segments (key x)) (path_segments (key y))) [
  | Ordering.lt ↦ x ∷ y ∷ ys
  | Ordering.eq ↦ x ∷ y ∷ ys
  | Ordering.gt ↦ y ∷ place key x ys
]

unfoldable pub sort_by_path : {A : Type 0} → (A → Bytes) → List A → List A
unfolding place
sort_by_path key [] = []
sort_by_path key (x ∷ xs) = place key x (sort_by_path key xs)

unfoldable pub diff : Lower → UpperChildren → OverlayDiff
unfolding walk writes_of deletions_of sort_by_path
diff l t = record {
  writes = sort_by_path (λ w. w.path) (writes_of (walk t));
  deletions = sort_by_path (λ path. path) (deletions_of l (walk t));
}

abbrev same_content : Bytes → Result Bytes VfsError → Bool
same_content content (ok disk) = beq disk content
same_content content (err e) = false

-- `file_matches_disk`, `dir_exists_on_disk` and `symlink_matches_disk`, and the test of a whiteout.
abbrev pub matches_disk : Lower → Visit → Bool
matches_disk l (path, upper_file content _ _) =
    is_ok_and file_type (l.lstat_lower path) && same_content content (l.read_lower_file path)
matches_disk l (path, upper_dir _ _ _) = is_ok_and directory_type (l.lstat_lower path)
matches_disk l (path, upper_symlink target _) =
    is_ok_and symlink_type (l.lstat_lower path) && same_content target (l.readlink_lower path)
matches_disk l (path, whiteout) = not (lower_exists l path)

abbrev pub has_children : Descend → Bool
has_children (found (upper_dir children _ _)) = not (is_leaf children)
has_children (found (upper_file _ _ _)) = false
has_children (found (upper_symlink _ _)) = false
has_children (found whiteout) = false
has_children missing = false
has_children blocked = false
has_children not_dir = false

abbrev pub is_dir_node : UpperNode → Bool
is_dir_node (upper_dir _ _ _) = true
is_dir_node (upper_file _ _ _) = false
is_dir_node (upper_symlink _ _) = false
is_dir_node whiteout = false

unfoldable pub sync_loop : Lower → List Visit → UpperChildren → UpperChildren
unfolding descend detach
sync_loop l [] t = t
sync_loop l ((path, node) ∷ visits) t = sync_loop l visits (
    if matches_disk l (path, node) && not (is_dir_node node && has_children (descend path t))
    then detach path t
    else t)

unfoldable pub sync : Lower → UpperChildren → UpperChildren
unfolding sync_loop walk_post
sync l t = sync_loop l (walk_post t) t
