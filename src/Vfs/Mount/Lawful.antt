-- ===== src/Vfs/Mount/Lawful.antt =====
-- src/vfs/mountable.rs: `MountableFs` as a `VirtualFs` itself.
use rust_bash.Prelude.{
  ◌≡◌, refl, List, [], ◌∷◌, some, ok, arith, All, Bool-cases, Option-cases, Result-cases, inl, inr,
  ◌∙◌,
}
use rust_bash.Prelude.Bytes.{Bytes}
use rust_bash.Vfs.Path.{vfs_path_is_absolute}
use rust_bash.Vfs.Fs.{VirtualFs, Change, IsLawful}
use rust_bash.Vfs.Mount.Table.{Mounts, Owner, owner, resolve_one, set_fs, strip_prefix, path_names}
use rust_bash.Vfs.Mount.Operations as Mounted
use rust_bash.Vfs.Mount.Operations.{query_at, change_at, changed}
use rust_bash.Vfs.Mount.Order.{IsSorted}
use rust_bash.Vfs.Mount.Routing.{same_names_iff, resolve_one-set_fs}

-- `impl VirtualFs for MountableFs`
abbrev pub mountable : VirtualFs → VirtualFs
mountable F = record {
  State = Mounts F.State;
  read_file = Mounted.read_file F;
  write_file = Mounted.write_file F;
  append_file = Mounted.append_file F;
  remove_file = Mounted.remove_file F;
  mkdir = Mounted.mkdir F;
  mkdir_p = Mounted.mkdir_p F;
  readdir = Mounted.readdir F;
  remove_dir = Mounted.remove_dir F;
  remove_dir_all = Mounted.remove_dir_all F;
  exists = Mounted.exists F;
  stat = Mounted.stat F;
  lstat = Mounted.lstat F;
  chmod = Mounted.chmod F;
  utimes = Mounted.utimes F;
  symlink = Mounted.symlink F;
  hardlink = Mounted.hardlink F;
  readlink = Mounted.readlink F;
  canonicalize = Mounted.canonicalize F;
  copy = Mounted.copy F;
  rename = Mounted.rename F;
}

-- The keys are in order and every filesystem is valid.
abbrev pub ValidMounts : (F : VirtualFs) → (F.State → Type 0) → Mounts F.State → Type 0
ValidMounts F IsValid ms = IsSorted ms × All (λ m. IsValid m.1) ms

module _ (F : VirtualFs) (IsValid : F.State → Type 0) (lawful : IsLawful F IsValid) where
  open F use {State}

  owner-valid :
      (names : List Bytes) (ms : Mounts State) (o : Owner State)
      → All (λ m. IsValid m.1) ms
      → owner names ms ≡ some o
      → IsValid o.1
  unfolding owner
  owner-valid names [] o v e = cc
  owner-valid names ((k, fs) ∷ ms) o (v, vs) e = elim (Option-cases (owner names ms)) [
    | inr (p, n) ↦ let same : p ≡ o = ground arith in rw (← same) (owner-valid names ms p vs n)
    | inl n ↦ elim (Option-cases (strip_prefix k names)) [
      | inl s ↦ ground arith
      | inr (rest, s) ↦ let same : (k, fs, rest) ≡ o = ground arith in rw (← same) v
    ]
  ]

  -- The mount behind a path that reads: where it is, and what the filesystem there reads.
  record Reads (path old : Bytes) (ms : Mounts State) : Type 0 where
    key : List Bytes
    fs : State
    rel : Bytes
    placed : resolve_one path ms ≡ ok (key, fs, rel)
    reads : F.read_file rel fs ≡ ok old
    valid : IsValid fs

  resolve_one-valid :
      (path : Bytes) (ms : Mounts State) (k : List Bytes) (fs : State) (rel : Bytes)
      → All (λ m. IsValid m.1) ms
      → resolve_one path ms ≡ ok (k, fs, rel)
      → IsValid fs
  unfolding resolve_one
  resolve_one-valid path ms k fs rel v e = elim (Bool-cases (vfs_path_is_absolute path)) [
    | inr n ↦ ground arith
    | inl a ↦ elim (Option-cases (owner (path_names path) ms)) [
      | inl n ↦ ground arith
      | inr ((key, new, rest), n) ↦
          let same : new ≡ fs = ground arith in
          rw (← same) (owner-valid (path_names path) ms (key, new, rest) v n)
    ]
  ]

  read_file_inv :
      (path old : Bytes) (ms : Mounts State)
      → ValidMounts F IsValid ms
      → Mounted.read_file F path ms ≡ ok old
      → Reads path old ms
  unfolding Mounted.read_file
  read_file_inv path old ms (s, v) h = elim (Result-cases (resolve_one path ms)) [
    | inr (e, p) ↦ ground arith
    | inl ((k, fs, rel), p) ↦ record {
      key = k;
      fs = fs;
      rel = rel;
      placed = p;
      reads = ground arith;
      valid = resolve_one-valid path ms k fs rel v p;
    }
  ]

  -- What a path reads once the state of its mount has become `new`.
  read_file_again :
      (path : Bytes) (ms : Mounts State) (k : List Bytes) (fs new : State) (rel : Bytes)
      → IsSorted ms
      → resolve_one path ms ≡ ok (k, fs, rel)
      → Mounted.read_file F path (set_fs k new ms) ≡ F.read_file rel new
  unfolding Mounted.read_file
  read_file_again path ms k fs new rel s p =
      rw (resolve_one-set_fs k new path ms s, p, (same_names_iff k k).1 refl) refl

  changed_at :
      (op : Bytes → Change State) (path : Bytes) (ms : Mounts State) (k : List Bytes) (fs : State)
      (rel : Bytes)
      → resolve_one path ms ≡ ok (k, fs, rel)
      → changed F op path ms ≡ (set_fs k (op rel fs).0 ms, (op rel fs).1)
  changed_at op path ms k fs rel p = rw p refl

  -- A table of lawful filesystems is a lawful filesystem: what is written by a path is read by it, whichever
  -- mount has the path.
  pub mountable-IsLawful : IsLawful (mountable F) (ValidMounts F IsValid)
  unfolding Mounted.write_file Mounted.append_file
  mountable-IsLawful = record {
    wrote = λ path content now ms old v h.
        let r = read_file_inv path old ms v h in
        rw (changed_at (λ rel. F.write_file rel content now) path ms r.key r.fs r.rel r.placed)
          (lawful.wrote r.rel content now r.fs old r.valid r.reads);
    read-write = λ path content now ms old v h.
        let r = read_file_inv path old ms v h in
        rw (changed_at (λ rel. F.write_file rel content now) path ms r.key r.fs r.rel r.placed) (
          read_file_again path ms r.key r.fs _ r.rel v.0 r.placed
          ∙ lawful.read-write r.rel content now r.fs old r.valid r.reads);
    read-append = λ path content now ms old v h.
        let r = read_file_inv path old ms v h in
        rw (changed_at (λ rel. F.append_file rel content now) path ms r.key r.fs r.rel r.placed) (
          read_file_again path ms r.key r.fs _ r.rel v.0 r.placed
          ∙ lawful.read-append r.rel content now r.fs old r.valid r.reads);
  }
