-- ===== src/Vfs/Overlay/Writes.antt =====
-- src/vfs/overlay.rs: the methods that make files, directories and links, and change them. Each gives the upper tree after
-- it and what it returns; no tree at all stands for the panic of `attach` on the root.
use rust_bash.Prelude.{
  ℕ, zero, suc, List, [], ◌∷◌, Bool, true, false, ◌&&◌, ◌||◌, not, if◌then◌else◌, Option, none,
  some, Result, ok, err, ◌>>=◌, is_ok, pop,
}
use rust_bash.Prelude.Bytes.{Bytes}
use rust_bash.Vfs.Path.{
  slash, VfsError, not_found, already_exists, is_a_directory, symlink_loop, join,
  vfs_normalize_checked, vfs_normalize, vfs_resolve, vfs_path_is_absolute,
}
use rust_bash.Vfs.Node.{Time}
use rust_bash.Vfs.Memory.Operations.Files.{Metadata, directory_type, symlink_type}
use rust_bash.Vfs.Memory.Operations.Directories.{DirEntry}
use rust_bash.Vfs.Overlay.Node.{upper_file, upper_dir, upper_symlink, whiteout, UpperChildren}
use rust_bash.Vfs.Overlay.Tree.{
  Descend, found, missing, blocked, not_dir, descend, Edit, Edited, attach, ensure_dirs,
}
use rust_bash.Vfs.Overlay.Tree.Listing as Tree
use rust_bash.Vfs.Overlay.Layers.{
  Lower, lower_exists, is_ok_and, LayerResult, in_whiteout, in_upper, in_lower, in_neither,
  resolve_layer, resolve_path, resolve_write_target, is_whiteout, upper_has_entry, path_components,
  max_depth,
}
use rust_bash.Vfs.Overlay.Reads.{stat, lstat, readlink, read_file}

abbrev pub Step : Type 0 → Type 0
Step A = Option (Edit A)

-- `?`
abbrev pub after : {A B : Type 0} → Step A → (A → UpperChildren → Step B) → Step B
after none rest = none
after (some (t, err e)) rest = some (t, err e)
after (some (t, ok a)) rest = rest a t

-- A computation that changes nothing, and what follows it.
abbrev pub given : {A B : Type 0} → UpperChildren → Result A VfsError → (A → Step B) → Step B
given t (err e) rest = some (t, err e)
given t (ok a) rest = rest a

abbrev pub fails : {A : Type 0} → VfsError → UpperChildren → Step A
fails e t = some (t, err e)

abbrev pub names_of : List DirEntry → List Bytes
names_of [] = []
names_of (e ∷ es) = e.name ∷ names_of es

abbrev pub some_names : Result (List DirEntry) VfsError → Option (List Bytes)
some_names (ok es) = some (names_of es)
some_names (err e) = none

abbrev pub some_mode : Result Metadata VfsError → Option ℕ
some_mode (ok m) = some m.mode
some_mode (err e) = none

abbrev pub lower_entries_of : Lower → Bytes → Option (List Bytes)
lower_entries_of l dir = some_names (l.readdir_lower dir)

abbrev pub lower_mode_of : Lower → Bytes → Option ℕ
lower_mode_of l path = some_mode (l.stat_lower path)

-- `ensure_dirs` of the tree with the probes of the lower layer.
abbrev pub ensure_at : Lower → Bytes → Time → UpperChildren → Edited
ensure_at l path now t = ensure_dirs path (lower_entries_of l) (lower_mode_of l) now t

unfoldable pub ensure_upper_dir_path : Lower → Bytes → Time → UpperChildren → Step (Unit {0})
unfolding resolve_write_target ensure_dirs
ensure_upper_dir_path l path now t =
    given t (resolve_write_target l path true t) (λ resolved. some (ensure_at l resolved now t))

-- `path.parent()` of a normalised path, where it is not the root.
abbrev parent_of : List Bytes → Option Bytes
parent_of [] = none
parent_of (name ∷ []) = none
parent_of (x ∷ y ∷ xs) = some (slash ∷ join (pop (x ∷ y ∷ xs)))

abbrev ensure_or_not : Lower → Time → UpperChildren → Option Bytes → Step (Unit {0})
ensure_or_not l now t none = some (t, ok tt)
ensure_or_not l now t (some parent) = ensure_upper_dir_path l parent now t

unfoldable pub ensure_parent : Lower → Bytes → Time → UpperChildren → Step (Unit {0})
unfolding ensure_upper_dir_path path_components
ensure_parent l norm now t = ensure_or_not l now t (parent_of (path_components norm))

unfoldable pub attach_file : Bytes → Bytes → ℕ → Time → UpperChildren → Step (Unit {0})
unfolding attach
attach_file path content mode now t = attach path (upper_file content mode now) t

unfoldable pub copy_up_if_needed : Lower → Bytes → Time → UpperChildren → Step (Unit {0})
unfolding ensure_parent attach_file upper_has_entry Tree.set_mtime
copy_up_if_needed l path now t =
    if upper_has_entry path t
    then some (t, ok tt)
    else after (ensure_parent l path now t) (λ u t. given t (l.read_lower_file path) (λ content.
      given t (l.stat_lower path) (λ m.
        after (attach_file path content m.mode now t)
          (λ u t. some (Tree.set_mtime path m.mtime t)))))

-- `resolve_through_dangling` of src/vfs/mod.rs, for the overlay: the name that a link without a target is to have.
abbrev next_target : Bytes → Bytes → Bytes
next_target current text =
    if vfs_path_is_absolute text
    then vfs_normalize text
    else vfs_normalize (vfs_resolve (slash ∷ join (pop (path_components current))) text)

unfoldable pub dangling_from : Lower → Bytes → UpperChildren → ℕ → Bytes → Result Bytes VfsError
unfolding lstat stat readlink
dangling_from l path t zero current = err (symlink_loop path)
dangling_from l path t (suc n) current =
    if is_ok_and symlink_type (lstat l current t) && not (is_ok (stat l current t))
    then (readlink l current t >>= λ text. dangling_from l path t n (next_target current text))
    else ok current

unfoldable pub resolve_through_dangling : Lower → Bytes → UpperChildren → Result Bytes VfsError
unfolding dangling_from
resolve_through_dangling l path t = dangling_from l path t max_depth path

abbrev is_upper_dir : Descend → Bool
is_upper_dir (found (upper_dir _ _ _)) = true
is_upper_dir (found (upper_file _ _ _)) = false
is_upper_dir (found (upper_symlink _ _)) = false
is_upper_dir (found whiteout) = false
is_upper_dir missing = false
is_upper_dir blocked = false
is_upper_dir not_dir = false

abbrev mode_or_default : Option ℕ → ℕ
mode_or_default none = 0o644
mode_or_default (some mode) = mode

-- The mode of a file that is overwritten, or the default for a new one.
abbrev kept_mode : Lower → Bytes → Descend → ℕ
kept_mode l norm (found (upper_file _ mode _)) = mode
kept_mode l norm (found (upper_dir _ _ _)) = 0o644
kept_mode l norm (found (upper_symlink _ _)) = 0o644
kept_mode l norm (found whiteout) = 0o644
kept_mode l norm blocked = 0o644
kept_mode l norm missing = mode_or_default (some_mode (l.lstat_lower norm))
kept_mode l norm not_dir = 0o644

unfoldable pub write_file : Lower → Bytes → Bytes → Time → UpperChildren → Step (Unit {0})
unfolding resolve_write_target resolve_through_dangling descend upper_has_entry is_whiteout
    ensure_parent attach_file
write_file l path content now t =
    given t
      (vfs_normalize_checked path >>= λ norm.
        resolve_write_target l norm true t >>= λ norm. resolve_through_dangling l norm t)
      (λ norm.
        if is_upper_dir (descend norm t)
          || (not (upper_has_entry norm t)
              && (not (is_whiteout norm t) && is_ok_and directory_type (l.lstat_lower norm)))
        then fails (is_a_directory path) t
        else after (ensure_parent l norm now t)
            (λ u t. attach_file norm content (kept_mode l norm (descend norm t)) now t))

-- A new file, with its parents.
abbrev create : Lower → Bytes → Bytes → Time → UpperChildren → Step (Unit {0})
create l norm content now t =
    after (ensure_parent l norm now t) (λ u t. attach_file norm content 0o644 now t)

-- A target that is missing is created where it is.
abbrev or_missing : Bytes → Result Bytes VfsError → Result Bytes VfsError
or_missing norm (ok resolved) = ok resolved
or_missing norm (err (not_found p)) = ok norm
or_missing norm (err e) = err e

abbrev append_layer : Lower → Bytes → Bytes → Time → UpperChildren → LayerResult → Step (Unit {0})
append_layer l resolved more now t in_whiteout = create l resolved more now t
append_layer l resolved more now t in_upper = some (Tree.append_file resolved more now t)
append_layer l resolved more now t in_lower =
    after (copy_up_if_needed l resolved now t) (λ u t. some (Tree.append_file resolved more now t))
append_layer l resolved more now t in_neither = create l resolved more now t

unfoldable pub append_file : Lower → Bytes → Bytes → Time → UpperChildren → Step (Unit {0})
unfolding is_whiteout resolve_write_target resolve_path resolve_layer ensure_parent attach_file
    copy_up_if_needed Tree.append_file
append_file l path more now t = given t (vfs_normalize_checked path) (λ norm.
    if is_whiteout norm t
    then create l norm more now t
    else given t
        (resolve_write_target l norm true t >>= λ norm.
          or_missing norm (resolve_path l norm true t))
        (λ resolved. append_layer l resolved more now t (resolve_layer l resolved t)))

-- The name is taken: it is seen in one of the layers.
abbrev pub is_taken : Lower → Bytes → UpperChildren → Bool
is_taken l norm t = not (is_whiteout norm t) && (upper_has_entry norm t || lower_exists l norm)

unfoldable pub mkdir : Lower → Bytes → Time → UpperChildren → Step (Unit {0})
unfolding resolve_write_target is_whiteout upper_has_entry ensure_upper_dir_path
mkdir l path now t = given t (resolve_write_target l path false t) (λ norm.
    if is_taken l norm t then fails (already_exists path) t else ensure_upper_dir_path l norm now t)

unfoldable pub symlink : Lower → Bytes → Bytes → Time → UpperChildren → Step (Unit {0})
unfolding resolve_write_target is_whiteout upper_has_entry ensure_parent attach
symlink l target link now t = given t (vfs_normalize_checked link) (λ norm.
    if is_taken l norm t
    then fails (already_exists link) t
    else given t (resolve_write_target l norm false t) (λ norm.
      if is_taken l norm t
      then fails (already_exists link) t
      else after (ensure_parent l norm now t) (λ u t. attach norm (upper_symlink target now) t)))

unfoldable pub hardlink : Lower → Bytes → Bytes → Time → UpperChildren → Step (Unit {0})
unfolding resolve_write_target is_whiteout upper_has_entry ensure_parent attach_file read_file stat
    Tree.set_mtime
hardlink l src dst now t = given t (vfs_normalize_checked src) (λ norm_src.
    given t (vfs_normalize_checked dst) (λ norm.
      if is_taken l norm t
      then fails (already_exists dst) t
      else given t (read_file l norm_src t) (λ content. given t (stat l norm_src t) (λ m.
        given t (resolve_write_target l norm false t) (λ norm.
          if is_taken l norm t
          then fails (already_exists dst) t
          else after (ensure_parent l norm now t) (λ u t.
            after (attach_file norm content m.mode now t)
              (λ u t. some (Tree.set_mtime norm m.mtime t))))))))
