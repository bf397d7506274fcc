-- ===== src/Tests/Paths.antt =====
-- Runs of the path functions of src/vfs/mod.rs.
use rust_bash.Prelude.{◌≡◌, refl, [], ◌∷◌, List, ok, err, if◌then◌else◌, ◌++◌}
use rust_bash.Prelude.Bytes.{Bytes, codes, beq}
use rust_bash.Vfs.Path.{
  slash, is_empty, invalid_path, vfs_path_is_absolute, split, join, segments, segment,
  vfs_normalize_checked, vfs_normalize, lossy_segment, lossy_segments, vfs_resolve, components,
  trim_start,
}
use rust_bash.Vfs.Path.Names.{IsName, Names, render}
use rust_bash.Vfs.Path.Laws.{vfs_normalize-vfs_normalize_checked, vfs_normalize_checked-components}

normalised : vfs_normalize_checked (codes "/a/./b//../c") ≡ ok (codes "/a/c")
unfolding vfs_normalize_checked join segments split segment beq
normalised = refl

relative :
    vfs_normalize_checked (codes "a/b") ≡ err (invalid_path (codes "path must be absolute: a/b"))
unfolding vfs_normalize_checked join segments split segment beq
relative = refl

home-IsName : IsName (codes "home")
home-IsName = record {
  inhabited = λ e. cc;
  not_dot = λ e. cc;
  not_dotdot = λ e. cc;
  no_slash = ((λ e. cc), ((λ e. cc), ((λ e. cc), ((λ e. cc), tt))));
}

abbrev home : List Bytes
home = codes "home" ∷ []

home-Names : Names home
home-Names = (home-IsName, tt)

abbrev dotted : Bytes
dotted = codes "/a/../../b/."

vfs_normalize-vfs_normalize_checked_example :
    (vfs_normalize_checked dotted ≡ (
      if vfs_path_is_absolute dotted
      then ok (vfs_normalize dotted)
      else err (
          invalid_path (
            if is_empty dotted
            then codes "empty path"
            else codes "path must be absolute: " ++ dotted))))
    × (vfs_normalize (vfs_normalize dotted) ≡ vfs_normalize dotted)
    × (vfs_path_is_absolute (vfs_normalize dotted) ≡ vfs_path_is_absolute dotted)
vfs_normalize-vfs_normalize_checked_example = vfs_normalize-vfs_normalize_checked dotted

undotted : vfs_normalize dotted ≡ codes "/b"
unfolding vfs_normalize lossy_segments lossy_segment split join beq
undotted = refl

vfs_normalize_checked-components_example :
    Names (components (codes "/a/c")) × (codes "/a/c" ≡ slash ∷ join (components (codes "/a/c")))
vfs_normalize_checked-components_example =
    vfs_normalize_checked-components (codes "/a/./b//../c") normalised

resolved : vfs_normalize_checked (vfs_resolve (render home) (codes "u/x")) ≡ ok (codes "/home/u/x")
unfolding vfs_normalize_checked vfs_resolve trim_start join segments split segment beq
resolved = refl
