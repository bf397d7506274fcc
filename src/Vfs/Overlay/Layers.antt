-- ===== src/Vfs/Overlay/Layers.antt =====
-- src/vfs/overlay.rs: where a path stands, in the upper tree or in the lower layer. The calls of the host's filesystem are
-- the fields of `Lower`, by the names of the methods that make them; the lower layer is read only.
use rust_bash.Prelude.{
  ℕ, zero, suc, List, [], ◌∷◌, ◌++◌, Bool, true, false, ◌&&◌, ◌||◌, not, if◌then◌else◌, Option,
  none, some, Result, ok, err, ◌>>=◌, is_ok, push, pop, last?,
}
use rust_bash.Prelude.Bytes.{Bytes, beq}
use rust_bash.Vfs.Path.{
  slash, dot, dotdot, VfsError, not_found, not_a_directory, symlink_loop, vfs_normalize_checked,
  vfs_path_is_absolute, vfs_append, vfs_join, components, join, is_empty,
}
use rust_bash.Vfs.Memory.Operations.Files.{
  Metadata, NodeType, file_type, directory_type, symlink_type,
}
use rust_bash.Vfs.Memory.Operations.Directories.{DirEntry}
use rust_bash.Vfs.Overlay.Node.{
  UpperNode, upper_file, upper_dir, upper_symlink, whiteout, UpperChildren,
}
use rust_bash.Vfs.Overlay.Tree.{
  Descend, found, missing, blocked, not_dir, descend, is_blocked_or_whiteout, content,
}

pub record Lower : Type 0 where
  pub lstat_lower : Bytes → Result Metadata VfsError
  pub stat_lower : Bytes → Result Metadata VfsError
  pub readdir_lower : Bytes → Result (List DirEntry) VfsError
  pub read_lower_file : Bytes → Result Bytes VfsError
  pub readlink_lower : Bytes → Result Bytes VfsError

-- `lower_exists` makes the same call as `lstat_lower`.
abbrev pub lower_exists : Lower → Bytes → Bool
lower_exists l path = is_ok (l.lstat_lower path)

abbrev pub is_type : NodeType → NodeType → Bool
is_type file_type file_type = true
is_type directory_type directory_type = true
is_type symlink_type symlink_type = true
is_type file_type directory_type = false
is_type file_type symlink_type = false
is_type directory_type file_type = false
is_type directory_type symlink_type = false
is_type symlink_type file_type = false
is_type symlink_type directory_type = false

-- `is_ok_and(|m| m.node_type == …)`
abbrev pub is_ok_and : NodeType → Result Metadata VfsError → Bool
is_ok_and type (ok m) = is_type m.node_type type
is_ok_and type (err e) = false

abbrev pub is_some : Option UpperNode → Bool
is_some none = false
is_some (some node) = true

unfoldable pub upper_has_entry : Bytes → UpperChildren → Bool
unfolding descend
upper_has_entry path t = is_some (content (descend path t))

unfoldable pub is_whiteout : Bytes → UpperChildren → Bool
unfolding descend
is_whiteout path t = is_blocked_or_whiteout (descend path t)

pub data LayerResult : Type 0 where
  in_whiteout in_upper in_lower in_neither : LayerResult

abbrev pub layer_of : Bool → Descend → LayerResult
layer_of in_disk (found whiteout) = in_whiteout
layer_of in_disk blocked = in_whiteout
layer_of in_disk not_dir = in_neither
layer_of true missing = in_lower
layer_of false missing = in_neither
layer_of in_disk (found (upper_file _ _ _)) = in_upper
layer_of in_disk (found (upper_dir _ _ _)) = in_upper
layer_of in_disk (found (upper_symlink _ _)) = in_upper

unfoldable pub resolve_layer : Lower → Bytes → UpperChildren → LayerResult
unfolding descend
resolve_layer l path t = layer_of (lower_exists l path) (descend path t)

unfoldable pub path_components : Bytes → List Bytes
unfolding components
path_components path = components path

-- The target of a link that stands in the directory `resolved`.
abbrev pub abs_target : Bytes → Bytes → Bytes
abs_target resolved target =
    if vfs_path_is_absolute target then target else vfs_append resolved target

-- Following a link, but for the last component where links are not followed there.
abbrev pub follow :
    (Bytes → Result Bytes VfsError)
    → Bool
    → Bytes
    → Bytes
    → Result Bytes VfsError
    → Result Bytes VfsError
follow next true resolved candidate target = ok candidate
follow next false resolved candidate target = target >>= λ target. next (abs_target resolved target)

-- One component: what it resolves to, given the resolution of a link's target and whether a link here stays.
abbrev pub resolve_step :
    Lower
    → (Bytes → Result Bytes VfsError)
    → Bytes
    → Bool
    → Bytes
    → Bytes
    → Descend
    → Result Bytes VfsError
resolve_step l next path stays resolved candidate (found whiteout) = err (not_found path)
resolve_step l next path stays resolved candidate blocked = err (not_found path)
resolve_step l next path stays resolved candidate not_dir = err (not_a_directory path)
resolve_step l next path stays resolved candidate (found (upper_symlink target _)) =
    follow next stays resolved candidate (ok target)
resolve_step l next path stays resolved candidate (found (upper_file _ _ _)) = ok candidate
resolve_step l next path stays resolved candidate (found (upper_dir _ _ _)) = ok candidate
resolve_step l next path stays resolved candidate missing =
    if is_ok_and symlink_type (l.lstat_lower candidate)
    then follow next stays resolved candidate (l.readlink_lower candidate)
    else ok candidate

unfoldable pub resolve_walk :
    Lower
    → (Bytes → Result Bytes VfsError)
    → Bytes
    → Bool
    → Bytes
    → List Bytes
    → UpperChildren
    → Result Bytes VfsError
unfolding descend vfs_join
resolve_walk l next path follow_final resolved [] t = ok resolved
resolve_walk l next path follow_final resolved (name ∷ names) t =
    resolve_step l next path (is_empty names && not follow_final) resolved (vfs_join resolved name)
      (descend (vfs_join resolved name) t)
    >>= λ here. resolve_walk l next path follow_final here names t

unfoldable pub resolve_path_depth : Lower → Bytes → Bool → ℕ → UpperChildren → Result Bytes VfsError
unfolding resolve_walk path_components
resolve_path_depth l path follow_final zero t = err (symlink_loop path)
resolve_path_depth l path follow_final (suc depth) t = vfs_normalize_checked path >>= λ norm.
    resolve_walk l (λ target. resolve_path_depth l target true depth t) path follow_final
      (slash ∷ []) (path_components norm) t

abbrev pub max_depth : ℕ
max_depth = 40

unfoldable pub resolve_path : Lower → Bytes → Bool → UpperChildren → Result Bytes VfsError
unfolding resolve_path_depth
resolve_path l path follow_final t = resolve_path_depth l path follow_final max_depth t

-- `normalize_segments`
abbrev pub is_dotdot : Option Bytes → Bool
is_dotdot none = true
is_dotdot (some s) = beq s dotdot

unfoldable pub normalize_from : List Bytes → List Bytes → List Bytes
normalize_from out [] = out
normalize_from out (seg ∷ segs) =
    normalize_from
      (if beq seg dot || beq seg []
        then out
        else if beq seg dotdot
        then (if is_dotdot (last? out) then out else pop out)
        else push out seg)
      segs

unfoldable pub normalize_segments : List Bytes → List Bytes
unfolding normalize_from
normalize_segments segs = normalize_from [] segs

abbrev pub to_option : Result Bytes VfsError → Option Bytes
to_option (ok text) = some text
to_option (err e) = none

-- The target of the link that stands at a component, in the upper tree or below it.
abbrev pub link_at : Lower → Bytes → Descend → Option Bytes
link_at l candidate (found (upper_symlink target _)) = some target
link_at l candidate missing =
    if is_ok_and symlink_type (l.lstat_lower candidate)
    then to_option (l.readlink_lower candidate)
    else none
link_at l candidate (found (upper_file _ _ _)) = none
link_at l candidate (found (upper_dir _ _ _)) = none
link_at l candidate (found whiteout) = none
link_at l candidate blocked = none
link_at l candidate not_dir = none

-- The segments behind a link, from the root again.
abbrev pub spliced : List Bytes → Bytes → List Bytes → List Bytes
spliced resolved target segs =
    normalize_segments
      ((if vfs_path_is_absolute target then [] else resolved) ++ (path_components target ++ segs))

abbrev pub write_step :
    (List Bytes → Result Bytes VfsError)
    → (List Bytes → Result Bytes VfsError)
    → Bool
    → List Bytes
    → Bytes
    → List Bytes
    → Option Bytes
    → Result Bytes VfsError
write_step restart go_on follow_final resolved seg segs none = go_on (push resolved seg)
write_step restart go_on follow_final resolved seg segs (some target) =
    if follow_final || not (is_empty segs)
    then restart (spliced resolved target segs)
    else go_on (push resolved seg)

-- The scan of the segments, given what to do with those behind a link.
unfoldable pub write_scan :
    Lower
    → (List Bytes → Result Bytes VfsError)
    → Bool
    → List Bytes
    → List Bytes
    → UpperChildren
    → Result Bytes VfsError
unfolding descend normalize_segments path_components
write_scan l restart follow_final resolved [] t = ok (slash ∷ join resolved)
write_scan l restart follow_final resolved (seg ∷ segs) t =
    let candidate = slash ∷ join (push resolved seg) in
    write_step restart (λ here. write_scan l restart follow_final here segs t) follow_final resolved
      seg segs (link_at l candidate (descend candidate t))

-- The loop, with `hops` links left.
unfoldable pub write_from :
    Lower → Bytes → Bool → ℕ → List Bytes → UpperChildren → Result Bytes VfsError
unfolding write_scan
write_from l path follow_final zero segs t =
    write_scan l (λ behind. err (symlink_loop path)) follow_final [] segs t
write_from l path follow_final (suc hops) segs t =
    write_scan l (λ behind. write_from l path follow_final hops behind t) follow_final [] segs t

unfoldable pub resolve_write_target : Lower → Bytes → Bool → UpperChildren → Result Bytes VfsError
unfolding write_from path_components
resolve_write_target l path follow_final t = vfs_normalize_checked path >>= λ norm.
    write_from l path follow_final max_depth (path_components norm) t
