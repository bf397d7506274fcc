-- ===== src/Vfs/Overlay/Reads.antt =====
-- src/vfs/overlay.rs: the methods of the trait `VirtualFs` that change nothing.
use Prim.Native.Nat.{Ordering}
use rust_bash.Prelude.{
  List, [], ◌∷◌, Bool, true, false, ◌&&◌, ◌||◌, not, if◌then◌else◌, Option, none, some, Result, ok,
  err, ◌>>=◌,
}
use rust_bash.Prelude.Bytes.{Bytes, beq}
use rust_bash.Vfs.Path.{
  VfsError, not_found, not_a_directory, is_a_directory, invalid_path, vfs_normalize_checked,
  vfs_join,
}
use rust_bash.Vfs.Node.{cmp}
use rust_bash.Vfs.Memory.Operations.Files.{Metadata, directory_type}
use rust_bash.Vfs.Memory.Operations.Directories.{DirEntry}
use rust_bash.Vfs.Overlay.Node.{upper_file, upper_dir, upper_symlink, whiteout, UpperChildren}
use rust_bash.Vfs.Overlay.Tree.{Descend, found, missing, blocked, not_dir, descend}
use rust_bash.Vfs.Overlay.Tree.Listing.{meta, dir_entries, whiteout_children}
use rust_bash.Vfs.Overlay.Layers.{
  Lower, lower_exists, is_type, LayerResult, in_whiteout, in_upper, in_lower, in_neither,
  resolve_layer, resolve_path, is_whiteout, upper_has_entry,
}

abbrev file_content : Bytes → Descend → Result Bytes VfsError
file_content path (found (upper_file c _ _)) = ok c
file_content path (found (upper_dir _ _ _)) = err (is_a_directory path)
file_content path (found (upper_symlink _ _)) = err (not_found path)
file_content path (found whiteout) = err (not_found path)
file_content path missing = err (not_found path)
file_content path blocked = err (not_found path)
file_content path not_dir = err (not_found path)

abbrev read_layer : Lower → Bytes → Bytes → UpperChildren → LayerResult → Result Bytes VfsError
read_layer l path resolved t in_whiteout = err (not_found path)
read_layer l path resolved t in_upper = file_content path (descend resolved t)
read_layer l path resolved t in_lower = l.read_lower_file resolved
read_layer l path resolved t in_neither = err (not_found path)

unfoldable pub read_file : Lower → Bytes → UpperChildren → Result Bytes VfsError
unfolding resolve_path resolve_layer descend
read_file l path t = vfs_normalize_checked path >>= λ norm.
    resolve_path l norm true t >>= λ resolved.
    read_layer l path resolved t (resolve_layer l resolved t)

abbrev ok_or : Bytes → Option Metadata → Result Metadata VfsError
ok_or path none = err (not_found path)
ok_or path (some m) = ok m

abbrev stat_layer : Lower → Bytes → Bytes → UpperChildren → LayerResult → Result Metadata VfsError
stat_layer l path resolved t in_whiteout = err (not_found path)
stat_layer l path resolved t in_upper = ok_or path (meta resolved t)
stat_layer l path resolved t in_lower = l.stat_lower resolved
stat_layer l path resolved t in_neither = err (not_found path)

unfoldable pub stat : Lower → Bytes → UpperChildren → Result Metadata VfsError
unfolding resolve_path resolve_layer meta
stat l path t = vfs_normalize_checked path >>= λ norm. resolve_path l norm true t >>= λ resolved.
    stat_layer l path resolved t (resolve_layer l resolved t)

abbrev lstat_at : Lower → Bytes → Bytes → UpperChildren → Descend → Result Metadata VfsError
lstat_at l norm orig t not_dir = err (not_a_directory orig)
lstat_at l norm orig t (found whiteout) = err (not_found orig)
lstat_at l norm orig t blocked = err (not_found orig)
lstat_at l norm orig t (found (upper_file _ _ _)) = ok_or orig (meta norm t)
lstat_at l norm orig t (found (upper_dir _ _ _)) = ok_or orig (meta norm t)
lstat_at l norm orig t (found (upper_symlink _ _)) = ok_or orig (meta norm t)
lstat_at l norm orig t missing =
    if lower_exists l norm then l.lstat_lower norm else err (not_found orig)

unfoldable pub lstat_overlay : Lower → Bytes → Bytes → UpperChildren → Result Metadata VfsError
unfolding descend meta
lstat_overlay l norm orig t = lstat_at l norm orig t (descend norm t)

unfoldable pub lstat : Lower → Bytes → UpperChildren → Result Metadata VfsError
unfolding lstat_overlay
lstat l path t = vfs_normalize_checked path >>= λ norm. lstat_overlay l norm path t

abbrev pub is_visible_at : Lower → Bytes → UpperChildren → Bool
is_visible_at l norm t = not (is_whiteout norm t) && (upper_has_entry norm t || lower_exists l norm)

abbrev ok_visible : Lower → UpperChildren → Result Bytes VfsError → Bool
ok_visible l t (ok norm) = is_visible_at l norm t
ok_visible l t (err e) = false

unfoldable pub exists : Lower → Bytes → UpperChildren → Bool
unfolding resolve_path is_whiteout upper_has_entry
exists l path t = ok_visible l t (vfs_normalize_checked path >>= λ norm. resolve_path l norm true t)

unfoldable pub canonicalize : Lower → Bytes → UpperChildren → Result Bytes VfsError
unfolding resolve_path is_whiteout upper_has_entry
canonicalize l path t = vfs_normalize_checked path >>= λ norm.
    resolve_path l norm true t >>= λ resolved.
    if is_visible_at l resolved t then ok resolved else err (not_found path)

abbrev link_text : Lower → Bytes → Bytes → Descend → Result Bytes VfsError
link_text l path norm (found (upper_symlink target _)) = ok target
link_text l path norm (found whiteout) = err (not_found path)
link_text l path norm blocked = err (not_found path)
link_text l path norm (found (upper_file _ _ _)) = err (invalid_path path)
link_text l path norm (found (upper_dir _ _ _)) = err (invalid_path path)
link_text l path norm missing =
    if lower_exists l norm then l.readlink_lower norm else err (not_found path)
link_text l path norm not_dir =
    if lower_exists l norm then l.readlink_lower norm else err (not_found path)

unfoldable pub readlink : Lower → Bytes → UpperChildren → Result Bytes VfsError
unfolding descend
readlink l path t = vfs_normalize_checked path >>= λ norm. link_text l path norm (descend norm t)

-- The `BTreeMap` of a merged listing, in the order of the names.
unfoldable pub insert_entry : DirEntry → List DirEntry → List DirEntry
unfolding cmp
insert_entry e [] = e ∷ []
insert_entry e (d ∷ ds) = elim (cmp e.name d.name) [
  | Ordering.lt ↦ e ∷ d ∷ ds
  | Ordering.eq ↦ e ∷ ds
  | Ordering.gt ↦ d ∷ insert_entry e ds
]

unfoldable pub remove_entry : Bytes → List DirEntry → List DirEntry
remove_entry name [] = []
remove_entry name (d ∷ ds) =
    let ds' = remove_entry name ds in if beq name d.name then ds' else d ∷ ds'

-- The entries of the lower layer that no whiteout hides.
unfoldable pub insert_lower : Bytes → UpperChildren → List DirEntry → List DirEntry → List DirEntry
unfolding insert_entry is_whiteout vfs_join
insert_lower path t [] entries = entries
insert_lower path t (e ∷ es) entries =
    insert_lower path t es
      (if is_whiteout (vfs_join path e.name) t then entries else insert_entry e entries)

unfoldable pub insert_all : List DirEntry → List DirEntry → List DirEntry
unfolding insert_entry
insert_all [] entries = entries
insert_all (e ∷ es) entries = insert_all es (insert_entry e entries)

unfoldable pub remove_all : List Bytes → List DirEntry → List DirEntry
unfolding remove_entry
remove_all [] entries = entries
remove_all (name ∷ names) entries = remove_all names (remove_entry name entries)

abbrev pub lower_names : Bool → Result (List DirEntry) VfsError → List DirEntry
lower_names false r = []
lower_names true (ok es) = es
lower_names true (err e) = []

abbrev pub upper_names : Option (List DirEntry) → List DirEntry
upper_names none = []
upper_names (some es) = es

unfoldable pub merged_at : Lower → Bytes → UpperChildren → List DirEntry
unfolding insert_lower insert_all remove_all dir_entries whiteout_children
merged_at l path t = remove_all (whiteout_children path t) (
    insert_all (upper_names (dir_entries path t))
      (insert_lower path t (lower_names (lower_exists l path) (l.readdir_lower path)) []))

abbrev pub or_path : Bytes → Result Bytes VfsError → Bytes
or_path path (ok resolved) = resolved
or_path path (err e) = path

unfoldable pub readdir_merged : Lower → Bytes → UpperChildren → Result (List DirEntry) VfsError
unfolding resolve_path merged_at
readdir_merged l path t = ok (merged_at l (or_path path (resolve_path l path true t)) t)

unfoldable pub readdir : Lower → Bytes → UpperChildren → Result (List DirEntry) VfsError
unfolding resolve_path is_whiteout upper_has_entry stat readdir_merged
readdir l path t = vfs_normalize_checked path >>= λ norm. resolve_path l norm true t >>= λ resolved.
    if is_visible_at l resolved t
    then (stat l resolved t >>= λ m.
        if is_type m.node_type directory_type
        then readdir_merged l resolved t
        else err (not_a_directory path))
    else err (not_found path)
