-- ===== src/Vfs/Overlay/Removed.antt =====
-- src/vfs/overlay.rs: what `remove_file`, `remove_dir` and `remove_dir_all` have hidden where they succeed.
use rust_bash.Prelude.{
  ◌≡◌, ◌≢◌, refl, List, [], ◌∷◌, Bool, true, false, Result, ok, err, ◌>>=◌, if◌then◌else◌,
}
use rust_bash.Prelude.Bytes.{Bytes}
use rust_bash.Vfs.Path.{VfsError, not_a_directory}
use rust_bash.Vfs.Node.{Time}
use rust_bash.Vfs.Memory.Operations.Files.{
  Metadata, NodeType, file_type, directory_type, symlink_type,
}
use rust_bash.Vfs.Overlay.Node.{upper_file, upper_dir, upper_symlink, whiteout, UpperChildren}
use rust_bash.Vfs.Overlay.Tree.{
  Descend, found, missing, blocked, not_dir, descend, Edited, path_segments, put_whiteout,
}
use rust_bash.Vfs.Overlay.Resurrect.{is_prefix}
use rust_bash.Vfs.Overlay.Whiteout.{put_whiteout-invisible}
use rust_bash.Vfs.Overlay.Layers.{Lower, lower_exists, is_type, resolve_layer}
use rust_bash.Vfs.Memory.Operations.Directories.{DirEntry}
use rust_bash.Vfs.Overlay.Reads.{lstat_overlay, readdir_merged}
use rust_bash.Vfs.Overlay.Writes.{lower_mode_of}
use rust_bash.Vfs.Overlay.Removal.{
  with_ok, removal_target, remove_at, remove_lower, remove_file, remove_all_type, remove_empty,
  remove_directory, remove_dir, remove_dir_all, not_root,
}
use rust_bash.Vfs.Overlay.Hidden.{is_hidden, invisible_is_hidden, IsTree, is_hidden-hide}

-- A removal of the entry `norm` has hidden it where it succeeds.
abbrev Hides : Lower → Bytes → Bytes → Edited → Type 0
Hides l norm below e = e.1 ≡ ok tt → is_hidden (resolve_layer l below e.0) ≡ true

if-Hides :
    (l : Lower) (norm below : Bytes) (b : Bool) (x y : Edited)
    → Hides l norm below x
    → Hides l norm below y
    → Hides l norm below (if b then x else y)
if-Hides l norm below true x y p q = p
if-Hides l norm below false x y p q = q

Hides-remove_lower :
    (l : Lower) (path norm below : Bytes) (now : Time) (t : UpperChildren)
    (r : Result Metadata VfsError)
    → path_segments norm ≢ []
    → is_prefix (path_segments norm) (path_segments below) ≡ true
    → Hides l norm below (remove_lower l path norm now t r)
unfolding resolve_layer
Hides-remove_lower l path norm below now t (err e) n h k = cc
Hides-remove_lower l path norm below now t (ok m) n h k =
    if-Hides l norm below (is_type m.node_type directory_type) _ _ (λ k. cc)
      (λ k.
        invisible_is_hidden (lower_exists l below)
          (descend below (put_whiteout norm (lower_mode_of l) now t))
          (put_whiteout-invisible norm below (lower_mode_of l) now t n h))
      k

Hides-remove_at :
    (l : Lower) (path norm below : Bytes) (now : Time) (t : UpperChildren) (d : Descend)
    → IsTree l
    → path_segments norm ≢ []
    → is_prefix (path_segments norm) (path_segments below) ≡ true
    → Hides l norm below (remove_at l path norm now t d)
Hides-remove_at l path norm below now t (found (upper_dir _ _ _)) tree n h k = cc
Hides-remove_at l path norm below now t (found (upper_file _ _ _)) tree n h k =
    is_hidden-hide l norm below now t tree n h
Hides-remove_at l path norm below now t (found (upper_symlink _ _)) tree n h k =
    is_hidden-hide l norm below now t tree n h
Hides-remove_at l path norm below now t (found whiteout) tree n h k =
    is_hidden-hide l norm below now t tree n h
Hides-remove_at l path norm below now t not_dir tree n h k = cc
Hides-remove_at l path norm below now t missing tree n h k =
    Hides-remove_lower l path norm below now t (l.lstat_lower norm) n h k
Hides-remove_at l path norm below now t blocked tree n h k =
    Hides-remove_lower l path norm below now t (l.lstat_lower norm) n h k

-- Where remove_file succeeds on an entry other than the root, over a lower layer that is a tree, neither layer shows the
-- entry it removed, or anything below it.
pub is_hidden-remove_file :
    (l : Lower) (path norm below : Bytes) (now : Time) (t : UpperChildren)
    → IsTree l
    → removal_target l path t ≡ ok norm
    → path_segments norm ≢ []
    → is_prefix (path_segments norm) (path_segments below) ≡ true
    → (remove_file l path now t).1 ≡ ok tt
    → is_hidden (resolve_layer l below (remove_file l path now t).0) ≡ true
unfolding remove_file
is_hidden-remove_file l path norm below now t tree target n h =
    rw target (Hides-remove_at l path norm below now t (descend norm t) tree n h)

Hides-with_ok :
    {A : Type 0} (l : Lower) (norm below : Bytes) (t : UpperChildren) (r : Result A VfsError)
    (f : A → Edited)
    → ((a : A) → r ≡ ok a → Hides l norm below (f a))
    → Hides l norm below (with_ok t r f)
Hides-with_ok l norm below t (err e) f h k = cc
Hides-with_ok l norm below t (ok a) f h k = h a refl k

-- The entry behind the guard is the one that the removal is about.
guarded :
    (guard : Result (Unit {0}) VfsError) (target : Result Bytes VfsError) (norm a : Bytes)
    → target ≡ ok norm
    → (guard >>= λ u. target) ≡ ok a
    → a ≡ norm
guarded (err e) target norm a h k = cc
guarded (ok u) target norm a h k = cc

Hides-remove_all_type :
    (l : Lower) (path norm below : Bytes) (now : Time) (t : UpperChildren) (type : NodeType)
    → IsTree l
    → path_segments norm ≢ []
    → is_prefix (path_segments norm) (path_segments below) ≡ true
    → Hides l norm below (remove_all_type l path norm now t type)
Hides-remove_all_type l path norm below now t file_type tree n h k = cc
Hides-remove_all_type l path norm below now t directory_type tree n h k =
    is_hidden-hide l norm below now t tree n h
Hides-remove_all_type l path norm below now t symlink_type tree n h k =
    is_hidden-hide l norm below now t tree n h

-- Where remove_dir_all succeeds on an entry other than the root, over a lower layer that is a tree, neither layer shows
-- the entry or anything below it.
pub is_hidden-remove_dir_all :
    (l : Lower) (path norm below : Bytes) (now : Time) (t : UpperChildren)
    → IsTree l
    → removal_target l path t ≡ ok norm
    → path_segments norm ≢ []
    → is_prefix (path_segments norm) (path_segments below) ≡ true
    → (remove_dir_all l path now t).1 ≡ ok tt
    → is_hidden (resolve_layer l below (remove_dir_all l path now t).0) ≡ true
unfolding remove_dir_all
is_hidden-remove_dir_all l path norm below now t tree target n h =
    Hides-with_ok l norm below t _ _ (λ a e.
      rw (guarded (not_root path) (removal_target l path t) norm a target e) (
        Hides-with_ok l norm below t (lstat_overlay l norm path t) _
          (λ m k. Hides-remove_all_type l path norm below now t m.node_type tree n h)))

Hides-remove_empty :
    (l : Lower) (path norm below : Bytes) (now : Time) (t : UpperChildren) (entries : List DirEntry)
    → IsTree l
    → path_segments norm ≢ []
    → is_prefix (path_segments norm) (path_segments below) ≡ true
    → Hides l norm below (remove_empty l path norm now t entries)
Hides-remove_empty l path norm below now t [] tree n h k =
    is_hidden-hide l norm below now t tree n h
Hides-remove_empty l path norm below now t (e ∷ es) tree n h k = cc

pub is_hidden-remove_dir :
    (l : Lower) (path norm below : Bytes) (now : Time) (t : UpperChildren)
    → IsTree l
    → removal_target l path t ≡ ok norm
    → path_segments norm ≢ []
    → is_prefix (path_segments norm) (path_segments below) ≡ true
    → (remove_dir l path now t).1 ≡ ok tt
    → is_hidden (resolve_layer l below (remove_dir l path now t).0) ≡ true
unfolding remove_dir
is_hidden-remove_dir l path norm below now t tree target n h =
    Hides-with_ok l norm below t _ _ (λ a e.
      rw (guarded (not_root path) (removal_target l path t) norm a target e) (
        Hides-with_ok l norm below t (lstat_overlay l norm path t)
          (remove_directory l path norm now t)
          (λ m k.
            if-Hides l norm below (is_type m.node_type directory_type) _
              (t, err (not_a_directory path))
              (Hides-with_ok l norm below t (readdir_merged l norm t)
                (remove_empty l path norm now t)
                (λ es k. Hides-remove_empty l path norm below now t es tree n h))
              (λ k. cc))))
