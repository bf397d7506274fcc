-- ===== src/Vfs/Mount/Operations.antt =====
-- src/vfs/mountable.rs: the methods of `MountableFs`, over a backend `F`.
use rust_bash.Prelude.{ℕ, List, [], ◌∷◌, Bool, true, false, ◌||◌, if◌then◌else◌, Result, ok, err}
use rust_bash.Prelude.Bytes.{Bytes, codes, beq}
use rust_bash.Vfs.Path.{
  slash, VfsError, not_found, io_error, vfs_path_is_absolute, vfs_append, is_empty,
}
use rust_bash.Vfs.Path.Names.{render}
use rust_bash.Vfs.Node.{Time}
use rust_bash.Vfs.Memory.Operations.Files.{Metadata, directory_type}
use rust_bash.Vfs.Memory.Operations.Directories.{DirEntry}
use rust_bash.Vfs.Fs.{VirtualFs, Change}
use rust_bash.Vfs.Mount.Table.{
  Mounts, resolve_one, mount_point_for, set_fs, same_names, is_mount_point,
  is_mount_point_or_ancestor, synthetic_mount_entries, merge, any_below, below_prefix,
}

module _ (F : VirtualFs) where
  open F use {State}

  abbrev pub Table : Type 0
  Table = Mounts State

  -- A query at the mount that owns the path.
  abbrev pub query_at :
      {A : Type 0}
      → (Bytes → State → Result A VfsError)
      → Result (List Bytes × State × Bytes) VfsError
      → Result A VfsError
  query_at ask (err e) = err e
  query_at ask (ok (key, fs, rel)) = ask rel fs

  abbrev pub back :
      List Bytes → State × Result (Unit {0}) VfsError → Table → Table × Result (Unit {0}) VfsError
  back key out ms = (set_fs key out.0 ms, out.1)

  -- A change at the mount that owns the path: the state of that mount is the one that changes.
  abbrev pub change_at :
      (Bytes → Change State)
      → Table
      → Result (List Bytes × State × Bytes) VfsError
      → Table × Result (Unit {0}) VfsError
  change_at op ms (err e) = (ms, err e)
  change_at op ms (ok (key, fs, rel)) = back key (op rel fs) ms

  abbrev pub changed : (Bytes → Change State) → Bytes → Change Table
  changed op path ms = change_at op ms (resolve_one path ms)

  unfoldable pub read_file : Bytes → Table → Result Bytes VfsError
  read_file path ms = query_at F.read_file (resolve_one path ms)

  unfoldable pub write_file : Bytes → Bytes → Time → Change Table
  write_file path content now = changed (λ rel. F.write_file rel content now) path

  unfoldable pub append_file : Bytes → Bytes → Time → Change Table
  append_file path content now = changed (λ rel. F.append_file rel content now) path

  unfoldable pub remove_file : Bytes → Change Table
  remove_file path = changed (λ rel. F.remove_file rel) path

  unfoldable pub mkdir : Bytes → Time → Change Table
  mkdir path now = changed (λ rel. F.mkdir rel now) path

  unfoldable pub mkdir_p : Bytes → Time → Change Table
  mkdir_p path now = changed (λ rel. F.mkdir_p rel now) path

  abbrev pub listing :
      Bytes → List DirEntry → Result (List DirEntry) VfsError → Result (List DirEntry) VfsError
  listing path synthetic (ok es) = ok (merge es es synthetic)
  listing path synthetic (err _) =
      if is_empty (merge [] [] synthetic) then err (not_found path) else ok (merge [] [] synthetic)

  unfoldable pub readdir : Bytes → Table → Result (List DirEntry) VfsError
  readdir path ms =
      listing path (synthetic_mount_entries path ms) (query_at F.readdir (resolve_one path ms))

  unfoldable pub remove_dir : Bytes → Change Table
  remove_dir path = changed (λ rel. F.remove_dir rel) path

  unfoldable pub remove_dir_all : Bytes → Change Table
  remove_dir_all path = changed (λ rel. F.remove_dir_all rel) path

  abbrev pub exists_at : Result (List Bytes × State × Bytes) VfsError → Bool
  exists_at (err e) = false
  exists_at (ok (key, fs, rel)) = F.exists rel fs

  unfoldable pub exists : Bytes → Table → Bool
  exists path ms =
      exists_at (resolve_one path ms) || is_mount_point path ms || any_below (below_prefix path) ms

  -- The time is `SystemTime::UNIX_EPOCH`.
  abbrev pub synthetic_metadata : Metadata
  synthetic_metadata = record {
    node_type = directory_type;
    size = 0;
    mode = 0o755;
    mtime = 0;
    file_id = 0;
  }

  abbrev pub described : Bytes → Table → Result Metadata VfsError → Result Metadata VfsError
  described path ms (ok m) = ok m
  described path ms (err _) =
      if is_mount_point_or_ancestor path ms then ok synthetic_metadata else err (not_found path)

  unfoldable pub stat : Bytes → Table → Result Metadata VfsError
  stat path ms = described path ms (query_at F.stat (resolve_one path ms))

  unfoldable pub lstat : Bytes → Table → Result Metadata VfsError
  lstat path ms = described path ms (query_at F.lstat (resolve_one path ms))

  unfoldable pub chmod : Bytes → ℕ → Change Table
  chmod path mode = changed (λ rel. F.chmod rel mode) path

  unfoldable pub utimes : Bytes → Time → Change Table
  utimes path mtime = changed (λ rel. F.utimes rel mtime) path

  -- An absolute target on the link's own mount is written as that mount sees it.
  abbrev pub remapped : Bytes → List Bytes → Result (List Bytes × State × Bytes) VfsError → Bytes
  remapped target link_point (err e) = target
  remapped target link_point (ok (point, fs, rel)) =
      if same_names link_point point then rel else target

  unfoldable pub remap_target : Bytes → Bytes → Table → Bytes
  remap_target target link ms =
      if vfs_path_is_absolute target
      then remapped target (mount_point_for link ms) (resolve_one target ms)
      else target

  unfoldable pub symlink : Bytes → Bytes → Time → Change Table
  unfolding remap_target
  symlink target link now ms =
      change_at (λ rel. F.symlink (remap_target target link ms) rel now) ms (resolve_one link ms)

  abbrev pub at_two :
      ((List Bytes × State × Bytes)
        → (List Bytes × State × Bytes)
        → Table × Result (Unit {0}) VfsError)
      → Table
      → Result (List Bytes × State × Bytes) VfsError
      → Result (List Bytes × State × Bytes) VfsError
      → Table × Result (Unit {0}) VfsError
  at_two op ms (err e) dst = (ms, err e)
  at_two op ms (ok src) (err e) = (ms, err e)
  at_two op ms (ok src) (ok dst) = op src dst

  -- `resolve_two` and what follows it, for both on one mount and on two.
  unfoldable pub on_pair :
      (Bytes → Bytes → Change State)
      → ((List Bytes × State × Bytes)
          → (List Bytes × State × Bytes)
          → Table × Result (Unit {0}) VfsError)
      → Bytes
      → Bytes
      → Change Table
  on_pair same other src dst ms =
      at_two (λ a b. if same_names a.0 b.0 then back a.0 (same a.2 b.2 a.1) ms else other a b) ms
        (resolve_one src ms) (resolve_one dst ms)

  unfoldable pub hardlink : Bytes → Bytes → Change Table
  unfolding on_pair
  hardlink src dst ms =
      on_pair (λ a b. F.hardlink a b)
        (λ a b. (ms, err (io_error (codes "hard links across mount boundaries are not supported"))))
        src dst ms

  -- A path inside a mount as the whole namespace sees it.
  unfoldable pub reroot : List Bytes → Bytes → Bytes
  reroot [] inner = inner
  reroot (k ∷ key) inner =
      if beq inner (slash ∷ []) then render (k ∷ key) else vfs_append (render (k ∷ key)) inner

  abbrev pub relinked : List Bytes → Result Bytes VfsError → Result Bytes VfsError
  relinked point (err e) = err e
  relinked point (ok target) =
      ok (if vfs_path_is_absolute target then reroot point target else target)

  unfoldable pub readlink : Bytes → Table → Result Bytes VfsError
  unfolding reroot
  readlink path ms = relinked (mount_point_for path ms) (query_at F.readlink (resolve_one path ms))

  abbrev pub rerooted : List Bytes → Result Bytes VfsError → Result Bytes VfsError
  rerooted point (err e) = err e
  rerooted point (ok inner) = ok (reroot point inner)

  unfoldable pub canonicalize : Bytes → Table → Result Bytes VfsError
  unfolding reroot
  canonicalize path ms =
      rerooted (mount_point_for path ms) (query_at F.canonicalize (resolve_one path ms))

  -- The content that was read is written at the other mount.
  abbrev pub transfer :
      Time
      → Table
      → (List Bytes × State × Bytes)
      → Result Bytes VfsError
      → Table × Result (Unit {0}) VfsError
  transfer now ms dst (err e) = (ms, err e)
  transfer now ms dst (ok content) = back dst.0 (F.write_file dst.2 content now dst.1) ms

  unfoldable pub copy : Bytes → Bytes → Time → Change Table
  unfolding on_pair
  copy src dst now ms =
      on_pair (λ a b. F.copy a b now) (λ a b. transfer now ms b (F.read_file a.2 a.1)) src dst ms

  abbrev pub then_remove :
      (List Bytes × State × Bytes)
      → Table × Result (Unit {0}) VfsError
      → Table × Result (Unit {0}) VfsError
  then_remove src (ms, err e) = (ms, err e)
  then_remove src (ms, ok _) = back src.0 (F.remove_file src.2 src.1) ms

  abbrev pub is_directory_type : Result Metadata VfsError → Bool
  is_directory_type (err _) = false
  is_directory_type (ok m) = elim m.node_type [ directory_type ↦ true | _ ↦ false ]

  unfoldable pub rename : Bytes → Bytes → Time → Change Table
  unfolding on_pair
  rename src dst now ms =
      on_pair (λ a b. F.rename a b now)
        (λ a b.
          if is_directory_type (F.stat a.2 a.1)
          then (
            ms,
            err (io_error (codes "rename of directories across mount boundaries is not supported")),
          )
          else then_remove a (transfer now ms b (F.read_file a.2 a.1)))
        src dst ms
