-- ===== src/Vfs/Path.antt =====
-- src/vfs/mod.rs: VFS paths use `/` only, whatever the host. A path is the text of a `PathBuf`.
pub mod Split
pub mod Names
pub mod Laws
use rust_bash.Prelude.{
  ◌≡◌, ℕ, List, [], ◌∷◌, ◌++◌, Bool, true, false, ◌||◌, not, ◌==◌, if◌then◌else◌, push, pop, Result,
  ok, err, last?, Option, none, some,
}
use rust_bash.Prelude.Bytes.{Bytes, codes, beq}

abbrev pub slash : ℕ
slash = b'/'

abbrev pub dot : Bytes
dot = codes "."

abbrev pub dotdot : Bytes
dotdot = codes ".."

-- `VfsError` of src/error.rs
pub data VfsError : Type 0 where
  not_found already_exists not_a_directory not_a_file is_a_directory : Bytes → VfsError
  permission_denied directory_not_empty symlink_loop invalid_path io_error : Bytes → VfsError

-- `s.starts_with(c)` and `s.ends_with(c)` for one byte
abbrev pub starts_with : ℕ → Bytes → Bool
starts_with c [] = false
starts_with c (x ∷ s) = x == c

abbrev pub is_byte : ℕ → Option ℕ → Bool
is_byte c none = false
is_byte c (some x) = x == c

abbrev pub ends_with : ℕ → Bytes → Bool
ends_with c s = is_byte c (last? s)

unfoldable pub vfs_path_is_absolute : Bytes → Bool
vfs_path_is_absolute path = starts_with slash path

-- The common start of `vfs_join`, `vfs_append` and `vfs_resolve`: one separator at the end.
abbrev pub with_slash : Bytes → Bytes
with_slash s = if ends_with slash s then s else push s slash

unfoldable pub vfs_join : Bytes → Bytes → Bytes
vfs_join base name = with_slash base ++ name

-- `s.trim_start_matches('/')`
unfoldable pub trim_start : Bytes → Bytes
trim_start [] = []
trim_start (c ∷ s) = let rest = trim_start s in if c == slash then rest else c ∷ s

abbrev append_trimmed : Bytes → Bytes → Bytes
append_trimmed base [] = base
append_trimmed base (c ∷ r) = with_slash base ++ c ∷ r

unfoldable pub vfs_append : Bytes → Bytes → Bytes
unfolding trim_start
vfs_append base rel = append_trimmed base (trim_start rel)

-- `s.split('/')`: never empty.
abbrev pub cons_head : ℕ → List Bytes → List Bytes
cons_head c [] = (c ∷ []) ∷ []
cons_head c (w ∷ ws) = (c ∷ w) ∷ ws

unfoldable pub split : Bytes → List Bytes
split [] = [] ∷ []
split (c ∷ s) = let rest = split s in if c == slash then [] ∷ rest else cons_head c rest

-- `parts.join("/")`
unfoldable pub join : List Bytes → Bytes
join [] = []
join (x ∷ []) = x
join (x ∷ y ∷ xs) = x ++ slash ∷ join (y ∷ xs)

-- The body of the loop of `vfs_normalize_checked`: `parts` is the stack.
unfoldable pub segment : List Bytes → Bytes → List Bytes
segment parts seg =
    if beq seg [] || beq seg dot
    then parts
    else if beq seg dotdot
    then pop parts
    else push parts seg

unfoldable pub segments : List Bytes → List Bytes → List Bytes
segments parts [] = parts
segments parts (seg ∷ segs) = segments (segment parts seg) segs

abbrev pub is_empty {ℓ} : {A : Type ℓ} → List A → Bool
is_empty [] = true
is_empty (_ ∷ _) = false

unfoldable pub vfs_normalize_checked : Bytes → Result Bytes VfsError
unfolding vfs_path_is_absolute
vfs_normalize_checked path =
    if is_empty path
    then err (invalid_path (codes "empty path"))
    else if not (vfs_path_is_absolute path)
    then err (invalid_path (codes "path must be absolute: " ++ path))
    else ok (slash ∷ join (segments [] (split path)))

-- The body of the loop of `vfs_normalize`, which tests the stack before it pops.
unfoldable pub lossy_segment : List Bytes → Bytes → List Bytes
lossy_segment parts seg =
    if beq seg [] || beq seg dot
    then parts
    else if beq seg dotdot
    then (if not (is_empty parts) then pop parts else parts)
    else push parts seg

unfoldable pub lossy_segments : List Bytes → List Bytes → List Bytes
unfolding lossy_segment
lossy_segments parts [] = parts
lossy_segments parts (seg ∷ segs) = lossy_segments (lossy_segment parts seg) segs

unfoldable pub vfs_normalize : Bytes → Bytes
unfolding lossy_segments
vfs_normalize path =
    let joined = join (lossy_segments [] (split path)) in
    if starts_with slash path then slash ∷ joined else joined

-- `vfs_resolve`, where `translate_windows_drive_path` is the identity (it is, but on Windows).
unfoldable pub vfs_resolve : Bytes → Bytes → Bytes
vfs_resolve cwd path = if starts_with slash path then path else with_slash cwd ++ path

-- `components` of src/vfs/memory.rs, `filter(|c| !c.is_empty())` included.
unfoldable pub non_empty : List Bytes → List Bytes
non_empty [] = []
non_empty ([] ∷ ws) = non_empty ws
non_empty ((c ∷ w) ∷ ws) = (c ∷ w) ∷ non_empty ws

unfoldable pub components : Bytes → List Bytes
unfolding trim_start split non_empty
components path = non_empty (split (trim_start path))
