-- ===== src/Vfs/Mount/Mounted.antt =====
-- src/vfs/mountable.rs: which filesystem a path has after `mount`.
use Prim.Native.Nat.{Ordering}
use rust_bash.Prelude.{
  ◌≡◌, sym, refl, ◌≤◌, ◌<◌, List, [], ◌∷◌, Option, none, some, length, arith, All, ◌⊎◌, inl, inr,
  ok, Bool, true, false, if◌then◌else◌,
}
use rust_bash.Prelude.Bytes.{Bytes, beq_iff}
use rust_bash.Vfs.Path.{vfs_path_is_absolute}
use rust_bash.Vfs.Path.Names.{render}
use rust_bash.Vfs.Node.Order.{cmp_refl}
use rust_bash.Vfs.Mount.Table.{
  lex, strip_prefix, Mounts, insert_mount, mount, Owner, owner, behind, or_else, path_names,
  resolve_one, resolve_mount,
}
use rust_bash.Vfs.Mount.Order.{Lower, Above, IsSorted, lex-eq, Above-trans}

-- Of two paths that a third starts with, the lower one is shorter.
shorter :
    (a b path r s : List Bytes)
    → strip_prefix a path ≡ some r
    → strip_prefix b path ≡ some s
    → Lower a b
    → length a < length b
unfolding strip_prefix lex
shorter [] [] path r s h k l = cc
shorter [] (y ∷ b) path r s h k l = omega arith
shorter (x ∷ a) [] path r s h k l = cc
shorter (x ∷ a) (y ∷ b) [] r s h k l = cc
shorter (x ∷ a) (y ∷ b) (p ∷ path) r s h k l =
    ground (arith, shorter a b path r s, beq_iff x p, beq_iff y p, cmp_refl p)

module _ {S : Type 0} where
  -- No mount that the path lies on has a longer mount point.
  abbrev pub NoLonger : List Bytes → List Bytes → Mounts S → Type 0
  NoLonger key names = All (λ m. (strip_prefix m.0 names ≡ none) ⊎ (length m.0 ≤ length key))

  not_behind :
      (key names r k : List Bytes) (fs : S) (o : Option (List Bytes))
      → strip_prefix key names ≡ some r
      → Lower key k
      → (strip_prefix k names ≡ none) ⊎ (length k ≤ length key)
      → strip_prefix k names ≡ o
      → behind k fs o ≡ none
  not_behind key names r k fs none h l n e = refl
  not_behind key names r k fs (some s) h l (inl m) e = cc
  not_behind key names r k fs (some s) h l (inr m) e =
      let lt = shorter key k names r s h e l in absurd (omega arith)

  owner-Above :
      (key names r : List Bytes) (ms : Mounts S)
      → strip_prefix key names ≡ some r
      → Above key ms
      → NoLonger key names ms
      → owner names ms ≡ none
  unfolding owner
  owner-Above key names r [] h a n = refl
  owner-Above key names r ((k, fs) ∷ ms) h (a, above) (n, ns) =
      rw
        (
          owner-Above key names r ms h above ns,
          not_behind key names r k fs (strip_prefix k names) h a n refl,
        )
        refl

  owner-insert_mount_at :
      (o : Ordering) (key names r k : List Bytes) (fs old : S) (ms : Mounts S)
      → lex key k ≡ o
      → strip_prefix key names ≡ some r
      → IsSorted ((k, old) ∷ ms)
      → NoLonger key names ((k, old) ∷ ms)
      → owner names (insert_mount key fs ms) ≡ some (key, fs, r)
      → owner names (insert_mount key fs ((k, old) ∷ ms)) ≡ some (key, fs, r)
  unfolding owner insert_mount
  owner-insert_mount_at Ordering.lt key names r k fs old ms e h (a, s) (n, ns) next =
      rw
        (
          insert_mount,
          e,
          owner-Above key names r ((k, old) ∷ ms) h (e, Above-trans key k ms e a) (n, ns),
          h,
        )
        refl
  owner-insert_mount_at Ordering.eq key names r k fs old ms e h (a, s) (n, ns) next =
      let same : k ≡ key = sym (lex-eq key k e) in
      let above : Above key ms = rw same at a in
      rw (insert_mount, e, same, owner-Above key names r ms h above ns, h) refl
  owner-insert_mount_at Ordering.gt key names r k fs old ms e h (a, s) (n, ns) next =
      rw (insert_mount, e, next) refl

  owner-insert_mount :
      (key names r : List Bytes) (fs : S) (ms : Mounts S)
      → strip_prefix key names ≡ some r
      → IsSorted ms
      → NoLonger key names ms
      → owner names (insert_mount key fs ms) ≡ some (key, fs, r)
  unfolding owner insert_mount
  owner-insert_mount key names r fs [] h s n = rw h refl
  owner-insert_mount key names r fs ((k, old) ∷ ms) h (a, s) (n, ns) =
      owner-insert_mount_at (lex key k) key names r k fs old ms refl h (a, s) (n, ns)
        (owner-insert_mount key names r fs ms h s ns)

  or_none : (o : Option (Owner S)) → or_else o none ≡ o
  or_none none = refl
  or_none (some p) = refl

  other_at :
      (o : Ordering) (key names k : List Bytes) (fs old : S) (ms : Mounts S)
      → lex key k ≡ o
      → strip_prefix key names ≡ none
      → owner names (insert_mount key fs ms) ≡ owner names ms
      → owner names (insert_mount key fs ((k, old) ∷ ms)) ≡ owner names ((k, old) ∷ ms)
  unfolding owner insert_mount
  other_at Ordering.lt key names k fs old ms e h next = rw (insert_mount, e, h) (or_none _)
  other_at Ordering.eq key names k fs old ms e h next =
      let same : k ≡ key = sym (lex-eq key k e) in rw (insert_mount, e, same, h) refl
  other_at Ordering.gt key names k fs old ms e h next = rw (insert_mount, e, next) refl

  owner-insert_mount_other :
      (key names : List Bytes) (fs : S) (ms : Mounts S)
      → strip_prefix key names ≡ none
      → owner names (insert_mount key fs ms) ≡ owner names ms
  unfolding owner insert_mount
  owner-insert_mount_other key names fs [] h = rw h refl
  owner-insert_mount_other key names fs ((k, old) ∷ ms) h =
      other_at (lex key k) key names k fs old ms refl h (owner-insert_mount_other key names fs ms h)

  absolute_only : (b : Bool) (x ms' : Mounts S) → (if b then some x else none) ≡ some ms' → ms' ≡ x
  absolute_only true x ms' h = cc
  absolute_only false x ms' h = cc

  -- Where a filesystem is mounted, every absolute path below its mount point is resolved to it, relative to the mount
  -- point, whatever was mounted there, where the path lies on no mount with a longer mount point.
  pub resolve_mount-mount :
      (path q : Bytes) (r : List Bytes) (fs : S) (ms ms' : Mounts S)
      → IsSorted ms
      → mount path fs ms ≡ some ms'
      → vfs_path_is_absolute q ≡ true
      → strip_prefix (path_names path) (path_names q) ≡ some r
      → NoLonger (path_names path) (path_names q) ms
      → resolve_mount q ms' ≡ ok (fs, render r)
  unfolding mount resolve_mount resolve_one
  resolve_mount-mount path q r fs ms ms' s m h p n =
      rw
        (
          absolute_only (vfs_path_is_absolute path) (insert_mount (path_names path) fs ms) ms' m,
          h,
          owner-insert_mount (path_names path) (path_names q) r fs ms p s n,
        )
        refl

  -- Mounting a filesystem changes nothing for a path that is not below its mount point.
  pub resolve_mount-mount_other :
      (path q : Bytes) (fs : S) (ms ms' : Mounts S)
      → mount path fs ms ≡ some ms'
      → strip_prefix (path_names path) (path_names q) ≡ none
      → resolve_mount q ms' ≡ resolve_mount q ms
  unfolding mount resolve_mount resolve_one
  resolve_mount-mount_other path q fs ms ms' m p =
      rw
        (
          absolute_only (vfs_path_is_absolute path) (insert_mount (path_names path) fs ms) ms' m,
          owner-insert_mount_other (path_names path) (path_names q) fs ms p,
        )
        refl
