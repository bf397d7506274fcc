-- ===== src/Vfs/Mount/Table.antt =====
-- src/vfs/mountable.rs: the mounts, a `BTreeMap` in the order of its keys. A `PathBuf` counts by its
-- components, so an absolute one is their list; where the source takes a key's text, it is that of its components, and a
-- key is written without `.` and doubled or trailing separators. Each backend has one mount, so its state stands there: a
-- backend that is mounted at two points is not modelled.
use Prim.Native.Nat.{Ordering}
use rust_bash.Prelude.{
  List, [], ◌∷◌, Bool, true, false, ◌&&◌, ◌||◌, Option, none, some, if◌then◌else◌, Result, ok, err,
  push,
}
use rust_bash.Prelude.Bytes.{Bytes, beq}
use rust_bash.Vfs.Path.{slash, dot, VfsError, not_found, vfs_path_is_absolute, split, is_empty}
use rust_bash.Vfs.Path.Names.{render}
use rust_bash.Vfs.Node.{cmp}
use rust_bash.Vfs.Memory.Operations.Files.{directory_type}
use rust_bash.Vfs.Memory.Operations.Directories.{DirEntry}

-- `Path::components` behind the root: empty parts and `.` are not components.
unfoldable pub named : List Bytes → List Bytes
named [] = []
named (w ∷ ws) = let rest = named ws in if beq w [] || beq w dot then rest else w ∷ rest

unfoldable pub path_names : Bytes → List Bytes
unfolding named
path_names path = named (split path)

-- `Ord` for `Path`: component by component.
unfoldable pub lex : List Bytes → List Bytes → Ordering
lex [] [] = Ordering.eq
lex [] (b ∷ bs) = Ordering.lt
lex (a ∷ more) [] = Ordering.gt
lex (a ∷ more) (b ∷ bs) = elim (cmp a b) [
  | Ordering.lt ↦ Ordering.lt
  | Ordering.eq ↦ lex more bs
  | Ordering.gt ↦ Ordering.gt
]

-- `path.strip_prefix(base)`, which is there where `path.starts_with(base)`.
unfoldable pub strip_prefix : List Bytes → List Bytes → Option (List Bytes)
strip_prefix [] path = some path
strip_prefix (b ∷ base) [] = none
strip_prefix (b ∷ base) (p ∷ path) =
    let rest = strip_prefix base path in if beq b p then rest else none

unfoldable pub same_names : List Bytes → List Bytes → Bool
same_names [] [] = true
same_names [] (b ∷ bs) = false
same_names (a ∷ more) [] = false
same_names (a ∷ more) (b ∷ bs) = beq a b && same_names more bs

abbrev pub Mounts : Type 0 → Type 0
Mounts S = List (List Bytes × S)

-- A mount point, its filesystem and the components of a path behind it.
abbrev pub Owner : Type 0 → Type 0
Owner S = List Bytes × S × List Bytes

module _ {S : Type 0} where
  -- `BTreeMap::insert`
  unfoldable pub insert_mount : List Bytes → S → Mounts S → Mounts S
  insert_mount key fs [] = (key, fs) ∷ []
  insert_mount key fs ((k, old) ∷ ms) =
      let rest = insert_mount key fs ms in
      elim (lex key k) [
        | Ordering.lt ↦ (key, fs) ∷ (k, old) ∷ ms
        | Ordering.eq ↦ (k, fs) ∷ ms
        | Ordering.gt ↦ (k, old) ∷ rest
      ]

  -- `none` where the assertion panics.
  unfoldable pub mount : Bytes → S → Mounts S → Option (Mounts S)
  unfolding insert_mount
  mount path fs ms =
      if vfs_path_is_absolute path then some (insert_mount (path_names path) fs ms) else none

  abbrev pub behind : List Bytes → S → Option (List Bytes) → Option (Owner S)
  behind key fs none = none
  behind key fs (some rest) = some (key, fs, rest)

  abbrev pub or_else : Option (Owner S) → Option (Owner S) → Option (Owner S)
  or_else (some o) next = some o
  or_else none next = next

  -- `for (mount_point, fs) in mounts.iter().rev()`: the last one that the path starts with.
  unfoldable pub owner : List Bytes → Mounts S → Option (Owner S)
  owner names [] = none
  owner names ((key, fs) ∷ ms) = or_else (owner names ms) (behind key fs (strip_prefix key names))

  abbrev pub found_at : Bytes → Option (Owner S) → Result (List Bytes × S × Bytes) VfsError
  found_at path none = err (not_found path)
  found_at path (some (key, fs, rest)) = ok (key, fs, render rest)

  -- `resolve_one` of `resolve_two`. No relative path starts with a mount point.
  unfoldable pub resolve_one : Bytes → Mounts S → Result (List Bytes × S × Bytes) VfsError
  unfolding owner
  resolve_one path ms =
      if vfs_path_is_absolute path
      then found_at path (owner (path_names path) ms)
      else err (not_found path)

  abbrev pub without_point : Result (List Bytes × S × Bytes) VfsError → Result (S × Bytes) VfsError
  without_point (err e) = err e
  without_point (ok (key, fs, rel)) = ok (fs, rel)

  unfoldable pub resolve_mount : Bytes → Mounts S → Result (S × Bytes) VfsError
  unfolding resolve_one
  resolve_mount path ms = without_point (resolve_one path ms)

  abbrev pub point_of : Result (List Bytes × S × Bytes) VfsError → List Bytes
  point_of (err e) = []
  point_of (ok (key, fs, rel)) = key

  -- The root where there is none.
  unfoldable pub mount_point_for : Bytes → Mounts S → List Bytes
  unfolding resolve_one
  mount_point_for path ms = point_of (resolve_one path ms)

  -- The state behind a mount point, after a call.
  unfoldable pub set_fs : List Bytes → S → Mounts S → Mounts S
  set_fs key fs [] = []
  set_fs key fs ((k, old) ∷ ms) =
      let rest = set_fs key fs ms in if same_names key k then (k, fs) ∷ ms else (k, old) ∷ rest

  unfoldable pub contains_mount : List Bytes → Mounts S → Bool
  contains_mount key [] = false
  contains_mount key ((k, fs) ∷ ms) = same_names key k || contains_mount key ms

-- `s.trim_end_matches('/')`
unfoldable pub trim_end : Bytes → Bytes
trim_end [] = []
trim_end (c ∷ s) =
    let rest = trim_end s in if is_empty rest && beq (c ∷ []) (slash ∷ []) then [] else c ∷ rest

-- The text that the paths below `path` start with.
unfoldable pub below_prefix : Bytes → Bytes
below_prefix path = if beq path (slash ∷ []) then slash ∷ [] else push (trim_end path) slash

-- `text.strip_prefix(prefix)` on `str`
unfoldable pub strip_text : Bytes → Bytes → Option Bytes
strip_text [] text = some text
strip_text (c ∷ prefix) [] = none
strip_text (c ∷ prefix) (d ∷ text) =
    let rest = strip_text prefix text in if beq (c ∷ []) (d ∷ []) then rest else none

abbrev pub is_some : {A : Type 0} → Option A → Bool
is_some none = false
is_some (some _) = true

unfoldable pub any_below : {S : Type 0} → Bytes → Mounts S → Bool
unfolding strip_text
any_below prefix [] = false
any_below prefix ((k, fs) ∷ ms) = is_some (strip_text prefix (render k)) || any_below prefix ms

unfoldable pub is_mount_point : {S : Type 0} → Bytes → Mounts S → Bool
is_mount_point path ms = vfs_path_is_absolute path && contains_mount (path_names path) ms

unfoldable pub is_mount_point_or_ancestor : {S : Type 0} → Bytes → Mounts S → Bool
is_mount_point_or_ancestor path ms = is_mount_point path ms || any_below (below_prefix path) ms

unfoldable pub has_name : Bytes → List DirEntry → Bool
has_name name [] = false
has_name name (e ∷ es) = beq e.name name || has_name name es

abbrev pub add_entry : List DirEntry → DirEntry → List DirEntry
add_entry es e = if has_name e.name es then es else push es e

abbrev pub first_part : List Bytes → Bytes
first_part [] = []
first_part (w ∷ ws) = w

abbrev pub add_child : Option Bytes → List DirEntry → List DirEntry
add_child none es = es
add_child (some []) es = es
add_child (some (c ∷ rest)) es =
    add_entry es (record { name = first_part (split (c ∷ rest)); node_type = directory_type })

unfoldable pub synthetic_from : {S : Type 0} → Bytes → Mounts S → List DirEntry → List DirEntry
unfolding strip_text
synthetic_from dir [] es = es
synthetic_from dir ((k, fs) ∷ ms) es = synthetic_from dir ms (
    if vfs_path_is_absolute dir && same_names k (path_names dir)
    then es
    else add_child (strip_text (below_prefix dir) (render k)) es)

unfoldable pub synthetic_mount_entries : {S : Type 0} → Bytes → Mounts S → List DirEntry
unfolding synthetic_from
synthetic_mount_entries dir ms = synthetic_from dir ms []

-- The entries of the mount, with those of the mounts below that have other names.
unfoldable pub merge : List DirEntry → List DirEntry → List DirEntry → List DirEntry
merge existing es [] = es
merge existing es (s ∷ ss) = merge existing (if has_name s.name existing then es else push es s) ss
