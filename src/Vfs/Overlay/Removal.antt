-- ===== src/Vfs/Overlay/Removal.antt =====
-- src/vfs/overlay.rs: the methods that remove entries and those that change or copy what is there, and `diff` and `reset`.
use rust_bash.Prelude.{
  ℕ, List, [], ◌∷◌, true, false, if◌then◌else◌, Option, none, some, Result, ok, err, ◌>>=◌,
}
use rust_bash.Prelude.Bytes.{Bytes, codes, beq}
use rust_bash.Vfs.Path.{
  slash, VfsError, not_found, not_a_directory, is_a_directory, directory_not_empty, invalid_path,
  io_error, vfs_normalize_checked, vfs_join, is_empty,
}
use rust_bash.Vfs.Node.{Time}
use rust_bash.Vfs.Memory.Operations.Files.{
  Metadata, NodeType, file_type, directory_type, symlink_type,
}
use rust_bash.Vfs.Memory.Operations.Directories.{DirEntry}
use rust_bash.Vfs.Overlay.Node.{
  upper_file, upper_dir, upper_symlink, whiteout, UpperChildren, upper_leaf,
}
use rust_bash.Vfs.Overlay.Tree.{
  Descend, found, missing, blocked, not_dir, descend, Edited, put_whiteout, detach, ensure_dirs,
}
use rust_bash.Vfs.Overlay.Tree.Listing as Tree
use rust_bash.Vfs.Overlay.Layers.{
  Lower, lower_exists, is_type, LayerResult, in_whiteout, in_upper, in_lower, in_neither,
  resolve_layer, resolve_path, resolve_write_target, is_whiteout, path_components,
}
use rust_bash.Vfs.Overlay.Reads.{stat, lstat_overlay, read_file, readdir_merged}
use rust_bash.Vfs.Overlay.Writes.{
  Step, after, given, fails, lower_mode_of, ensure_at, ensure_upper_dir_path, copy_up_if_needed,
  write_file,
}

-- Any other error of `resolve_path` than `NotFound` comes back as it is.
abbrev pub blamed : Bytes → Result Bytes VfsError → Result Bytes VfsError
blamed path (ok p) = ok p
blamed path (err (not_found p)) = err (not_found path)
blamed path (err e) = err e

-- A whiteout where the lower layer has something to hide, and nothing otherwise.
unfoldable pub hide : Lower → Bytes → Time → UpperChildren → UpperChildren
unfolding put_whiteout detach
hide l norm now t =
    let hidden = put_whiteout norm (lower_mode_of l) now t in
    if lower_exists l norm then hidden else detach norm t

abbrev pub hidden : Lower → Bytes → Time → UpperChildren → Edited
hidden l norm now t = (hide l norm now t, ok tt)

abbrev pub remove_lower :
    Lower → Bytes → Bytes → Time → UpperChildren → Result Metadata VfsError → Edited
remove_lower l path norm now t (err e) = (t, err (not_found path))
remove_lower l path norm now t (ok m) =
    if is_type m.node_type directory_type
    then (t, err (is_a_directory path))
    else (put_whiteout norm (lower_mode_of l) now t, ok tt)

abbrev pub remove_at : Lower → Bytes → Bytes → Time → UpperChildren → Descend → Edited
remove_at l path norm now t (found (upper_dir _ _ _)) = (t, err (is_a_directory path))
remove_at l path norm now t (found (upper_file _ _ _)) = hidden l norm now t
remove_at l path norm now t (found (upper_symlink _ _)) = hidden l norm now t
remove_at l path norm now t (found whiteout) = hidden l norm now t
remove_at l path norm now t not_dir = (t, err (not_a_directory path))
remove_at l path norm now t missing = remove_lower l path norm now t (l.lstat_lower norm)
remove_at l path norm now t blocked = remove_lower l path norm now t (l.lstat_lower norm)

-- `given`, for a method that does not attach.
abbrev pub with_ok : {A : Type 0} → UpperChildren → Result A VfsError → (A → Edited) → Edited
with_ok t (err e) rest = (t, err e)
with_ok t (ok a) rest = rest a

-- The entry that a removal is about: the last component is not followed.
unfoldable pub removal_target : Lower → Bytes → UpperChildren → Result Bytes VfsError
unfolding is_whiteout resolve_path
removal_target l path t = vfs_normalize_checked path >>= λ norm.
    if is_whiteout norm t then err (not_found path) else blamed path (resolve_path l norm false t)

unfoldable pub remove_file : Lower → Bytes → Time → UpperChildren → Edited
unfolding removal_target descend hide put_whiteout
remove_file l path now t =
    with_ok t (removal_target l path t) (λ norm. remove_at l path norm now t (descend norm t))

-- The guard of the removals of directories.
abbrev pub not_root : Bytes → Result (Unit {0}) VfsError
not_root path = vfs_normalize_checked path >>= λ norm.
    if beq norm (slash ∷ []) then err (invalid_path (codes "cannot remove root")) else ok tt

abbrev pub remove_empty : Lower → Bytes → Bytes → Time → UpperChildren → List DirEntry → Edited
remove_empty l path norm now t entries =
    if is_empty entries then hidden l norm now t else (t, err (directory_not_empty path))

abbrev pub remove_directory : Lower → Bytes → Bytes → Time → UpperChildren → Metadata → Edited
remove_directory l path norm now t m =
    if is_type m.node_type directory_type
    then with_ok t (readdir_merged l norm t) (remove_empty l path norm now t)
    else (t, err (not_a_directory path))

unfoldable pub remove_dir : Lower → Bytes → Time → UpperChildren → Edited
unfolding removal_target lstat_overlay readdir_merged hide
remove_dir l path now t =
    with_ok t (not_root path >>= λ u. removal_target l path t)
      (λ norm. with_ok t (lstat_overlay l norm path t) (remove_directory l path norm now t))

abbrev pub remove_all_type : Lower → Bytes → Bytes → Time → UpperChildren → NodeType → Edited
remove_all_type l path norm now t symlink_type = hidden l norm now t
remove_all_type l path norm now t file_type = (t, err (not_a_directory path))
remove_all_type l path norm now t directory_type = hidden l norm now t

unfoldable pub remove_dir_all : Lower → Bytes → Time → UpperChildren → Edited
unfolding removal_target lstat_overlay hide
remove_dir_all l path now t = with_ok t (not_root path >>= λ u. removal_target l path t) (λ norm.
    with_ok t (lstat_overlay l norm path t) (λ m. remove_all_type l path norm now t m.node_type))

-- What `chmod` and `utimes` share: a node of the lower layer comes up first.
abbrev up_and :
    Lower
    → Bytes
    → Bytes
    → (UpperChildren → Edited)
    → Time
    → UpperChildren
    → Result Metadata VfsError
    → Step (Unit {0})
up_and l resolved message change now t (err e) = some (t, err e)
up_and l resolved message change now t (ok m) = elim (m.node_type) [
  | file_type ↦ after (copy_up_if_needed l resolved now t) (λ u t. some (change t))
  | directory_type ↦ after (ensure_upper_dir_path l resolved now t) (λ u t. some (change t))
  | symlink_type ↦ fails (io_error message) t
]

abbrev change_layer :
    Lower
    → Bytes
    → Bytes
    → Bytes
    → (UpperChildren → Edited)
    → Time
    → UpperChildren
    → LayerResult
    → Step (Unit {0})
change_layer l path resolved message change now t in_whiteout = fails (not_found path) t
change_layer l path resolved message change now t in_upper = some (change t)
change_layer l path resolved message change now t in_lower =
    up_and l resolved message change now t (l.lstat_lower resolved)
change_layer l path resolved message change now t in_neither = fails (not_found path) t

unfoldable pub chmod : Lower → Bytes → ℕ → Time → UpperChildren → Step (Unit {0})
unfolding resolve_path resolve_layer copy_up_if_needed ensure_upper_dir_path Tree.set_mode
chmod l path mode now t =
    given t (vfs_normalize_checked path >>= λ norm. resolve_path l norm true t) (λ resolved.
      change_layer l path resolved (codes "cannot chmod a symlink directly")
        (Tree.set_mode resolved mode) now t (resolve_layer l resolved t))

unfoldable pub utimes : Lower → Bytes → Time → Time → UpperChildren → Step (Unit {0})
unfolding resolve_path resolve_layer copy_up_if_needed ensure_upper_dir_path Tree.set_mtime
utimes l path mtime now t =
    given t (vfs_normalize_checked path >>= λ norm. resolve_path l norm true t) (λ resolved.
      change_layer l path resolved (codes "cannot utimes a symlink directly")
        (Tree.set_mtime resolved mtime) now t (resolve_layer l resolved t))

unfoldable pub copy : Lower → Bytes → Bytes → Time → UpperChildren → Step (Unit {0})
unfolding read_file stat write_file chmod
copy l src dst now t = given t (vfs_normalize_checked src) (λ norm_src.
    given t (vfs_normalize_checked dst) (λ norm_dst. given t (read_file l norm_src t) (λ content.
      given t (stat l norm_src t)
        (λ m. after (write_file l norm_dst content now t) (λ u t. chmod l norm_dst m.mode now t)))))

-- One component of `mkdir_p`: what makes the directory there, or what is there already.
abbrev lower_dir : Bytes → Result Metadata VfsError → Result (Unit {0}) VfsError
lower_dir path (err e) = err e
lower_dir path (ok m) =
    if is_type m.node_type directory_type then ok tt else err (not_a_directory path)

abbrev mkdir_one : Lower → Bytes → Bytes → Time → UpperChildren → Option Metadata → Edited
mkdir_one l path built now t (some m) =
    if is_type m.node_type directory_type then (t, ok tt) else (t, err (not_a_directory path))
mkdir_one l path built now t none =
    if lower_exists l built
    then (t, lower_dir path (l.lstat_lower built))
    else ensure_at l built now t

abbrev and_then : Edited → (UpperChildren → Edited) → Edited
and_then (t, err e) rest = (t, err e)
and_then (t, ok u) rest = rest t

unfoldable pub mkdir_loop : Lower → Bytes → Time → Bytes → List Bytes → UpperChildren → Edited
unfolding is_whiteout ensure_dirs Tree.meta vfs_join
mkdir_loop l path now built [] t = (t, ok tt)
mkdir_loop l path now built (name ∷ names) t =
    let here = vfs_join built name in
    and_then
      (if is_whiteout here t
        then ensure_at l here now t
        else mkdir_one l path here now t (Tree.meta here t))
      (mkdir_loop l path now here names)

unfoldable pub mkdir_p : Lower → Bytes → Time → UpperChildren → Edited
unfolding resolve_write_target mkdir_loop path_components
mkdir_p l path now t =
    with_ok t (resolve_write_target l path true t)
      (λ norm. mkdir_loop l path now (slash ∷ []) (path_components norm) t)

abbrev pub reset : UpperChildren → UpperChildren
reset t = upper_leaf
