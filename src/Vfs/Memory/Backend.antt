-- ===== src/Vfs/Memory/Backend.antt =====
-- src/vfs/memory.rs: `InMemoryFs` as a `VirtualFs`.
use rust_bash.Prelude.{◌≡◌, true}
use rust_bash.Vfs.Node.{FsNode, is_directory}
use rust_bash.Vfs.Fs.{VirtualFs, IsLawful}
use rust_bash.Vfs.Memory.Operations.Access.{exists_path}
use rust_bash.Vfs.Memory.Operations.Files as Files
use rust_bash.Vfs.Memory.Operations.Directories as Directories
use rust_bash.Vfs.Memory.Operations.Links as Links
use rust_bash.Vfs.Memory.ReadWrite as ReadWrite
use rust_bash.Vfs.Memory.Attributes as Attributes

-- `impl VirtualFs for InMemoryFs`
abbrev pub memory_fs : VirtualFs
memory_fs = record {
  State = FsNode;
  read_file = Files.read_file;
  write_file = Files.write_file;
  append_file = Files.append_file;
  remove_file = Directories.remove_file;
  mkdir = Directories.mkdir;
  mkdir_p = Directories.mkdir_p;
  readdir = Directories.readdir;
  remove_dir = Directories.remove_dir;
  remove_dir_all = Directories.remove_dir_all;
  exists = exists_path;
  stat = Files.stat;
  lstat = Files.lstat;
  chmod = Files.chmod;
  utimes = Files.utimes;
  symlink = Links.symlink;
  hardlink = Links.hardlink;
  readlink = Files.readlink;
  canonicalize = Links.canonicalize;
  copy = Files.copy;
  rename = λ src dst now. Links.rename src dst;
}

-- The root is a directory.
abbrev pub HasRoot : FsNode → Type 0
HasRoot tree = is_directory tree ≡ true

-- The in-memory filesystem keeps the promises of the trait on every tree whose root is a directory.
pub memory_fs-IsLawful : IsLawful memory_fs HasRoot
memory_fs-IsLawful = record {
  wrote = λ path content now tree old v r.
      (ReadWrite.read_file-write_file path content now tree old v r).0;
  read-write = λ path content now tree old v r.
      (ReadWrite.read_file-write_file path content now tree old v r).1;
  read-append = λ path content now tree old v r.
      (Attributes.read_file-append_file path content now tree old v r).1;
}
