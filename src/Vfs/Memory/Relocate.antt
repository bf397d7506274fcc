-- ===== src/Vfs/Memory/Relocate.antt =====
-- src/vfs/memory.rs: paths before and after a change through the canonical path.
use rust_bash.Prelude.{◌≡◌, ◌≢◌, refl, sym, ap, true, false, some, Result, ok, ◌>>=◌, arith, ◌∙◌}
use rust_bash.Prelude.Bytes.{Bytes}
use rust_bash.Vfs.Path.{VfsError, components, vfs_normalize_checked}
use rust_bash.Vfs.Path.Names.{Names, render, components-render}
use rust_bash.Vfs.Memory.Canonical.{resolve_canonical_from_root-Direct}
use rust_bash.Vfs.Path.Laws.{vfs_normalize_checked-components}
use rust_bash.Vfs.Node.{FsNode, is_directory}
use rust_bash.Vfs.Memory.Navigate.{navigate, navigate_to, resolve_canonical_from_root}
use rust_bash.Vfs.Memory.Agreement.{navigate-resolve_canonical}
use rust_bash.Vfs.Memory.Success.{navigate-canonical_ok}
use rust_bash.Vfs.Memory.Shape.{
  SameShape, files, directories, links, SameFound, both_ok, both_err, navigate-SameFound,
  resolve_canonical_from_root-SameShape,
}
use rust_bash.Vfs.Memory.Update.{navigate_to-modify, modify-SameShape, modify-other}
use rust_bash.Vfs.Memory.Operations.Access.{max_symlink_depth, Outcome, modify, with_node}
use rust_bash.Vfs.Memory.Operations.Files.{read_node, read_file}

pub SameShape-is_directory :
    {n n' : FsNode} → SameShape n n' → is_directory n ≡ true → is_directory n' ≡ true
SameShape-is_directory files h = h
SameShape-is_directory (directories s) h = h
SameShape-is_directory links h = h

-- A normalised path, its node and its canonical form, under the depth that the methods use.
pub record Located (tree : FsNode) (norm c : Bytes) (n : FsNode) : Type 0 where
  pub root : is_directory tree ≡ true
  pub valid : Names (components norm)
  pub found : navigate max_symlink_depth tree norm true tree ≡ ok n
  pub canonical : resolve_canonical_from_root max_symlink_depth tree norm true ≡ ok c

pub Located-leads :
    {tree : FsNode} {norm c : Bytes} {n : FsNode}
    → Located tree norm c n
    → navigate_to (components c) tree ≡ some n
Located-leads {tree} {norm} {c} {n} l =
    navigate-resolve_canonical max_symlink_depth max_symlink_depth tree norm c n l.root l.valid
      l.found l.canonical

-- Whatever can be navigated is located.
pub locate :
    (tree : FsNode) (norm : Bytes) (n : FsNode)
    → is_directory tree ≡ true
    → Names (components norm)
    → navigate max_symlink_depth tree norm true tree ≡ ok n
    → (c : Bytes) × Located tree norm c n
locate tree norm n dir valid h =
    let (c, e) =
      navigate-canonical_ok max_symlink_depth max_symlink_depth tree norm n (omega arith) dir valid
        h in
    (c, record { root = dir; valid = valid; found = h; canonical = e })

-- In a tree of the same shape the path is located at the same canonical form.
pub Located-SameShape :
    (tree tree' : FsNode) (norm c : Bytes) (n : FsNode)
    → Located tree norm c n
    → SameShape tree tree'
    → (n' : FsNode) × Located tree' norm c n' × SameShape n n'
Located-SameShape tree tree' norm c n l s =
    at (navigate max_symlink_depth tree norm true tree)
      (navigate max_symlink_depth tree' norm true tree')
      (navigate-SameFound max_symlink_depth tree tree' norm true tree tree' s s) l.found refl
  where
    at :
        (r r' : Result FsNode VfsError)
        → SameFound r r'
        → r ≡ ok n
        → navigate max_symlink_depth tree' norm true tree' ≡ r'
        → (n' : FsNode) × Located tree' norm c n' × SameShape n n'
    at r r' (both_ok {n = m} {n' = m'} same) h k =
        let e : m ≡ n = ground arith in
        (
          m',
          record {
            root = SameShape-is_directory s l.root;
            valid = l.valid;
            found = k;
            canonical =
                sym (resolve_canonical_from_root-SameShape max_symlink_depth tree tree' norm true s)
                ∙ l.canonical;
          },
          rw (← e) same,
        )
    at r r' both_err h k = absurd (cc h)

-- Two canonical paths with the same components are one.
components_injective :
    (tree : FsNode) (p q c d : Bytes) {n m : FsNode}
    → Located tree p c n
    → Located tree q d m
    → components c ≡ components d
    → d ≡ c
components_injective tree p q c d l k e =
    let (_, x) =
      resolve_canonical_from_root-Direct max_symlink_depth tree p c l.root l.valid l.canonical in
    let (_, y) =
      resolve_canonical_from_root-Direct max_symlink_depth tree q d k.root k.valid k.canonical in
    let names : x.names ≡ y.names =
      sym (components-render x.names x.valid)
      ∙ (ap components (sym x.rendered)
          ∙ (e ∙ (ap components y.rendered ∙ components-render y.names y.valid))) in
    y.rendered ∙ (ap render (sym names) ∙ sym x.rendered)

module _ {A : Type 0} (path : Bytes) (f : FsNode → Outcome A) (tree : FsNode) (norm c : Bytes)
    (n : FsNode) (l : Located tree norm c n) (shape : SameShape n (f n).0) where
  changed : FsNode
  changed = (modify (components c) path f tree).0

  changed-SameShape : SameShape tree changed
  unfolding changed
  changed-SameShape = modify-SameShape path f (components c) tree n (Located-leads l) shape

  -- The path leads to the changed node, at the same canonical form.
  pub Located-modify : Located (modify (components c) path f tree).0 norm c (f n).0
  unfolding changed
  Located-modify =
      let (n', l', s) = Located-SameShape tree changed norm c n l changed-SameShape in
      let same : (f n).0 ≡ n' = ground (
        arith,
        Located-leads l',
        navigate_to-modify path f (components c) tree n (Located-leads l),
      ) in
      rw same l'

  read_node-same :
      (q : Bytes) (m m' : FsNode)
      → SameShape m m'
      → (is_directory m ≡ false → m' ≡ m)
      → read_node q m' ≡ read_node q m
  unfolding read_node
  read_node-same q m m' files h = ap (read_node q) (h refl)
  read_node-same q m m' (directories _) h = refl
  read_node-same q m m' links h = refl

  other_node :
      (nq : Bytes) (m m' : FsNode)
      → is_directory n ≡ false
      → Names (components nq)
      → resolve_canonical_from_root max_symlink_depth tree nq true ≢ ok c
      → navigate max_symlink_depth tree nq true tree ≡ ok m
      → navigate max_symlink_depth changed nq true changed ≡ ok m'
      → is_directory m ≡ false
      → m' ≡ m
  unfolding changed
  other_node nq m m' dn valid other h h' dm =
      let (cq, lq) = locate tree nq m l.root valid h in
      let (m'', lq', s) = Located-SameShape tree changed nq cq m lq changed-SameShape in
      let kept =
        modify-other path f (components c) (components cq) tree n m (Located-leads l)
          (Located-leads lq) dn dm
          (λ e. other (lq.canonical ∙ ap ok (components_injective tree norm nq c cq l lq e))) in
      let same : m'' ≡ m = ground (arith, Located-leads lq', kept) in ground (arith, lq'.found)

  -- A path with another canonical form, or with none, reads the same.
  pub read_file-modify :
      (q nq : Bytes)
      → is_directory n ≡ false
      → vfs_normalize_checked q ≡ ok nq
      → resolve_canonical_from_root max_symlink_depth tree nq true ≢ ok c
      → read_file q (modify (components c) path f tree).0 ≡ read_file q tree
  unfolding read_file with_node changed
  read_file-modify q nq dn normal other = rw normal (
      at _ _
        (navigate-SameFound max_symlink_depth tree changed nq true tree changed changed-SameShape
          changed-SameShape)
        refl refl)
    where
      at :
          (r r' : Result FsNode VfsError)
          → SameFound r r'
          → navigate max_symlink_depth tree nq true tree ≡ r
          → navigate max_symlink_depth changed nq true changed ≡ r'
          → (r' >>= read_node q) ≡ (r >>= read_node q)
      at r r' (both_ok {n = m} {n' = m'} s) h h' =
          read_node-same q m m' s
            (other_node nq m m' dn (vfs_normalize_checked-components q normal).0 other h h')
      at r r' both_err h h' = refl
