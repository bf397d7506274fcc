-- ===== src/Vfs/Fs.antt =====
-- src/vfs/mod.rs: the trait `VirtualFs`, as a record of its methods over a state. A method that writes
-- returns the state with its result; `now` is the `SystemTime::now()` of the call.
use rust_bash.Prelude.{◌≡◌, ℕ, List, ◌++◌, Bool, Result, ok}
use rust_bash.Prelude.Bytes.{Bytes}
use rust_bash.Vfs.Path.{VfsError}
use rust_bash.Vfs.Node.{Time}
use rust_bash.Vfs.Memory.Operations.Files.{Metadata}
use rust_bash.Vfs.Memory.Operations.Directories.{DirEntry}

abbrev pub Change : Type 0 → Type 0
Change S = S → S × Result (Unit {0}) VfsError

pub record VirtualFs : Type 1 where
  pub State : Type 0
  pub read_file : Bytes → State → Result Bytes VfsError
  pub write_file : Bytes → Bytes → Time → Change State
  pub append_file : Bytes → Bytes → Time → Change State
  pub remove_file : Bytes → Change State
  pub mkdir : Bytes → Time → Change State
  pub mkdir_p : Bytes → Time → Change State
  pub readdir : Bytes → State → Result (List DirEntry) VfsError
  pub remove_dir : Bytes → Change State
  pub remove_dir_all : Bytes → Change State
  pub exists : Bytes → State → Bool
  pub stat : Bytes → State → Result Metadata VfsError
  pub lstat : Bytes → State → Result Metadata VfsError
  pub chmod : Bytes → ℕ → Change State
  pub utimes : Bytes → Time → Change State
  pub symlink : Bytes → Bytes → Time → Change State
  pub hardlink : Bytes → Bytes → Change State
  pub readlink : Bytes → State → Result Bytes VfsError
  pub canonicalize : Bytes → State → Result Bytes VfsError
  pub copy : Bytes → Bytes → Time → Change State
  pub rename : Bytes → Bytes → Time → Change State

-- What a caller relies on, in a state that `IsValid`, where it reads back what it has written.
pub record IsLawful (F : VirtualFs) (IsValid : F.State → Type 0) : Type 0 where
  pub wrote :
      (path content : Bytes) (now : Time) (s : F.State) (old : Bytes)
      → IsValid s
      → F.read_file path s ≡ ok old
      → (F.write_file path content now s).1 ≡ ok tt
  pub read-write :
      (path content : Bytes) (now : Time) (s : F.State) (old : Bytes)
      → IsValid s
      → F.read_file path s ≡ ok old
      → F.read_file path (F.write_file path content now s).0 ≡ ok content
  pub read-append :
      (path content : Bytes) (now : Time) (s : F.State) (old : Bytes)
      → IsValid s
      → F.read_file path s ≡ ok old
      → F.read_file path (F.append_file path content now s).0 ≡ ok (old ++ content)
