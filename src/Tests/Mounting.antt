-- ===== src/Tests/Mounting.antt =====
-- Runs of src/vfs/mountable.rs on a table of two in-memory filesystems, at / and at /mnt.

use rust_bash.Prelude.{◌≡◌, ◌≢◌, refl, [], ◌∷◌, List, some, ok, inr, arith}
use rust_bash.Prelude.Bytes.{Bytes, codes, beq}
use rust_bash.Vfs.Path.{
  vfs_append, trim_start, vfs_path_is_absolute, split, join, segment, segments,
  vfs_normalize_checked, components, non_empty,
}
use rust_bash.Vfs.Node.{FsNode, file, directory, leaf, entry, cmp, get, insert}
use rust_bash.Vfs.Memory.Navigate.{descend, navigate}
use rust_bash.Vfs.Memory.Operations.Access.{
  with_node, with_node_no_follow, with_parent_mut, navigate_mut, join_all, edit_children,
}
use rust_bash.Vfs.Memory.Operations.Directories.{insert_new}
use rust_bash.Vfs.Memory.Operations.Files.{read_node, readlink_node}
use rust_bash.Vfs.Memory.Operations.Files as Files
use rust_bash.Vfs.Memory.Operations.Links as Links
use rust_bash.Vfs.Memory.Backend.{memory_fs, memory_fs-IsLawful, HasRoot}
use rust_bash.Vfs.Fs.{IsLawful}
use rust_bash.Vfs.Mount.Table.{
  Mounts, mount, insert_mount, path_names, named, lex, strip_prefix, same_names, owner, resolve_one,
  mount_point_for, set_fs, resolve_mount,
}
use rust_bash.Vfs.Mount.Operations as Mounted
use rust_bash.Vfs.Mount.Order.{IsSorted}
use rust_bash.Vfs.Mount.Mounted.{resolve_mount-mount, resolve_mount-mount_other}
use rust_bash.Vfs.Mount.Lawful.{mountable, mountable-IsLawful, ValidMounts}

abbrev root_fs : FsNode
root_fs = directory (entry (codes "a") (file (codes "hi") 420 0 1) leaf) 493 0

abbrev inner_fs : FsNode
inner_fs = directory (entry (codes "f") (file (codes "ho") 420 0 1) leaf) 493 0

abbrev mnt : List Bytes
mnt = codes "mnt" ∷ []

abbrev mounts : Mounts FsNode
mounts = ([], root_fs) ∷ (mnt, inner_fs) ∷ []

built : mount (codes "/mnt") inner_fs (([], root_fs) ∷ []) ≡ some mounts
unfolding mount path_names named split beq vfs_path_is_absolute lex cmp
built = refl

mounts-IsSorted : IsSorted mounts
unfolding lex
mounts-IsSorted = ((refl, tt), (tt, tt))

reads : Mounted.read_file memory_fs (codes "/mnt/f") mounts ≡ ok (codes "ho")
unfolding Mounted.read_file resolve_one path_names named split beq vfs_path_is_absolute owner
    strip_prefix join Files.read_file vfs_normalize_checked components segments segment non_empty
    navigate get read_node with_node descend
reads = refl

apart : mount_point_for (codes "/a") mounts ≢ mount_point_for (codes "/mnt/f") mounts
unfolding mount_point_for resolve_one path_names named split beq vfs_path_is_absolute owner
    strip_prefix join
apart = λ e. cc

-- A link at /mnt to /etc/x, which the mount at / has: what is read back is another path.
relinked :
    Mounted.readlink memory_fs
      (codes "/mnt/l")
      (Mounted.symlink memory_fs (codes "/etc/x") (codes "/mnt/l") 0 mounts).0
    ≡ ok (codes "/mnt/etc/x")
unfolding Mounted.readlink Mounted.symlink Mounted.remap_target mount_point_for resolve_one
    path_names named split beq vfs_path_is_absolute owner strip_prefix join set_fs same_names
    Files.readlink Links.symlink vfs_normalize_checked components segments segment non_empty
    navigate get with_node_no_follow descend with_parent_mut insert_new insert cmp edit_children
    Mounted.reroot vfs_append trim_start readlink_node navigate_mut join_all
relinked = refl

mountable-IsLawful_example : IsLawful (mountable memory_fs) (ValidMounts memory_fs HasRoot)
mountable-IsLawful_example = mountable-IsLawful memory_fs HasRoot memory_fs-IsLawful

-- Another filesystem mounted at /mnt takes its paths, and leaves those at the root.
abbrev remounted : Mounts FsNode
remounted = ([], root_fs) ∷ (mnt, root_fs) ∷ []

resolve_mount-mount_example : resolve_mount (codes "/mnt/f") remounted ≡ ok (root_fs, codes "/f")
unfolding mount insert_mount path_names named split beq vfs_path_is_absolute lex cmp strip_prefix
    join
resolve_mount-mount_example =
    resolve_mount-mount (codes "/mnt") (codes "/mnt/f") (codes "f" ∷ []) root_fs mounts remounted
      mounts-IsSorted refl refl refl (inr (omega arith), (inr (omega arith), tt))

resolve_mount-mount_other_example :
    resolve_mount (codes "/a") remounted ≡ resolve_mount (codes "/a") mounts
unfolding mount insert_mount path_names named split beq vfs_path_is_absolute lex cmp strip_prefix
resolve_mount-mount_other_example =
    resolve_mount-mount_other (codes "/mnt") (codes "/a") root_fs mounts remounted refl refl
