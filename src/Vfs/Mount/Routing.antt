-- ===== src/Vfs/Mount/Routing.antt =====
-- src/vfs/mountable.rs: what a change at one mount leaves of the others.
use rust_bash.Prelude.{
  ◌≡◌, refl, sym, ap₂, List, [], ◌∷◌, true, false, Option, none, some, if◌then◌else◌, Result, ok,
  err, arith, Bool-cases, inl, inr, ◌↔◌,
}
use rust_bash.Prelude.Bytes.{Bytes, beq_iff}
use rust_bash.Vfs.Path.{VfsError, vfs_path_is_absolute}
use rust_bash.Vfs.Mount.Order.{Lower, Above, IsSorted, lex_refl}
use rust_bash.Vfs.Mount.Table.{
  Mounts, Owner, behind, or_else, owner, found_at, resolve_one, set_fs, same_names, strip_prefix,
  path_names,
}

pub same_names_iff : (a b : List Bytes) → (same_names a b ≡ true) ↔ (a ≡ b)
unfolding same_names
same_names_iff [] [] = (λ _. refl, λ _. refl)
same_names_iff [] (y ∷ ys) = (λ h. cc, λ h. cc)
same_names_iff (x ∷ xs) [] = (λ h. cc, λ h. cc)
same_names_iff (x ∷ xs) (y ∷ ys) = ground (arith, beq_iff x y, same_names_iff xs ys)

Lower-same_names : (a b : List Bytes) → Lower a b → same_names a b ≡ false
Lower-same_names a b h = elim (Bool-cases (same_names a b)) [
  | inr e ↦ e
  | inl e ↦ let same : a ≡ b = (same_names_iff a b).0 e in absurd (cc (lex_refl b, rw same at h))
]

module _ {S : Type 0} where
  -- What becomes of the mount that a path has, where the state at `key` is replaced.
  abbrev pub replaced : List Bytes → S → Option (Owner S) → Option (Owner S)
  replaced key new none = none
  replaced key new (some (k, fs, rest)) = some (k, (if same_names key k then new else fs), rest)

  replaced-or_else :
      (key : List Bytes) (new : S) (a b : Option (Owner S))
      → replaced key new (or_else a b) ≡ or_else (replaced key new a) (replaced key new b)
  replaced-or_else key new none b = refl
  replaced-or_else key new (some _) b = refl

  -- The keys of the table are different from one another.
  abbrev pub Absent : List Bytes → Mounts S → Type 0
  Absent key [] = Unit
  Absent key ((k, fs) ∷ ms) = (same_names key k ≡ false) × Absent key ms

  abbrev pub Distinct : Mounts S → Type 0
  Distinct [] = Unit
  Distinct ((k, fs) ∷ ms) = Absent k ms × Distinct ms

  replaced_other :
      (key k : List Bytes) (new fs : S) (o : Option (List Bytes))
      → same_names key k ≡ false
      → replaced key new (behind k fs o) ≡ behind k fs o
  replaced_other key k new fs none h = refl
  replaced_other key k new fs (some rest) h = rw h refl

  replaced_same :
      (key k : List Bytes) (new fs : S) (o : Option (List Bytes))
      → same_names key k ≡ true
      → replaced key new (behind k fs o) ≡ behind k new o
  replaced_same key k new fs none h = refl
  replaced_same key k new fs (some rest) h = rw h refl

  owner-Absent :
      (key names : List Bytes) (new : S) (ms : Mounts S)
      → Absent key ms
      → replaced key new (owner names ms) ≡ owner names ms
  unfolding owner
  owner-Absent key names new [] h = refl
  owner-Absent key names new ((k, fs) ∷ ms) (h, hs) =
      rw (replaced-or_else key new (owner names ms) (behind k fs (strip_prefix k names)))
        (ap₂ or_else (owner-Absent key names new ms hs) (replaced_other key k new fs _ h))

  owner-set_fs :
      (key names : List Bytes) (new : S) (ms : Mounts S)
      → Distinct ms
      → owner names (set_fs key new ms) ≡ replaced key new (owner names ms)
  unfolding owner set_fs
  owner-set_fs key names new [] h = refl
  owner-set_fs key names new ((k, fs) ∷ ms) (h, hs) =
      let last = behind k fs (strip_prefix k names) in
      elim (Bool-cases (same_names key k)) [
        | inl e ↦
            let same : key ≡ k = (same_names_iff key k).0 e in
            let absent : Absent key ms = rw same h in
            rw (e, replaced-or_else key new (owner names ms) last)
              (ap₂ or_else (sym (owner-Absent key names new ms absent))
                (sym (replaced_same key k new fs _ e)))
        | inr e ↦
            rw (e, replaced-or_else key new (owner names ms) last)
              (ap₂ or_else (owner-set_fs key names new ms hs)
                (sym (replaced_other key k new fs _ e)))
      ]

  Above-Absent : (key : List Bytes) (ms : Mounts S) → Above key ms → Absent key ms
  Above-Absent key [] h = tt
  Above-Absent key ((k, fs) ∷ ms) (h, hs) = (Lower-same_names key k h, Above-Absent key ms hs)

  IsSorted-Distinct : (ms : Mounts S) → IsSorted ms → Distinct ms
  IsSorted-Distinct [] h = tt
  IsSorted-Distinct ((k, fs) ∷ ms) (h, hs) = (Above-Absent k ms h, IsSorted-Distinct ms hs)

  abbrev pub moved :
      List Bytes
      → S
      → Result (List Bytes × S × Bytes) VfsError
      → Result (List Bytes × S × Bytes) VfsError
  moved key new (err e) = err e
  moved key new (ok (k, fs, rel)) = ok (k, (if same_names key k then new else fs), rel)

  moved-found_at :
      (key : List Bytes) (new : S) (path : Bytes) (o : Option (Owner S))
      → found_at path (replaced key new o) ≡ moved key new (found_at path o)
  moved-found_at key new path none = refl
  moved-found_at key new path (some (k, fs, rest)) = refl

  -- After the state behind `key` has changed, a path has the mount that it had, with the new state there.
  pub resolve_one-set_fs :
      (key : List Bytes) (new : S) (path : Bytes) (ms : Mounts S)
      → IsSorted ms
      → resolve_one path (set_fs key new ms) ≡ moved key new (resolve_one path ms)
  unfolding resolve_one
  resolve_one-set_fs key new path ms h = elim (Bool-cases (vfs_path_is_absolute path)) [
    | inl e ↦
        rw (e, owner-set_fs key (path_names path) new ms (IsSorted-Distinct ms h))
          (moved-found_at key new path (owner (path_names path) ms))
    | inr e ↦ rw e refl
  ]
