-- ===== src/Vfs/Mount/Order.antt =====
-- src/vfs/mountable.rs: the order of the mounts, and which one `resolve_mount` takes.
use Prim.Native.Nat.{Ordering}
use rust_bash.Prelude.{◌≡◌, refl, List, [], ◌∷◌, arith, All}
use rust_bash.Prelude.Bytes.{Bytes}
use rust_bash.Vfs.Node.Order.{cmp_refl, cmp-eq, cmp-gt, Before-trans}
use rust_bash.Vfs.Mount.Table.{lex, Mounts}

abbrev pub Lower : List Bytes → List Bytes → Type 0
Lower a b = lex a b ≡ Ordering.lt

pub lex_refl : (a : List Bytes) → lex a a ≡ Ordering.eq
unfolding lex
lex_refl [] = refl
lex_refl (x ∷ xs) = ground (arith, cmp_refl x, lex_refl xs)

pub lex-eq : (a b : List Bytes) → lex a b ≡ Ordering.eq → a ≡ b
unfolding lex
lex-eq [] [] h = refl
lex-eq [] (y ∷ ys) h = cc
lex-eq (x ∷ xs) [] h = cc
lex-eq (x ∷ xs) (y ∷ ys) h = ground (arith, lex-eq xs ys, cmp-eq x y)

pub lex-gt : (a b : List Bytes) → lex a b ≡ Ordering.gt → Lower b a
unfolding lex
lex-gt [] [] h = cc
lex-gt [] (y ∷ ys) h = cc
lex-gt (x ∷ xs) [] h = refl
lex-gt (x ∷ xs) (y ∷ ys) h = ground (arith, lex-gt xs ys, cmp-eq x y, cmp-gt x y, cmp_refl x)

Lower-trans : (a b c : List Bytes) → Lower a b → Lower b c → Lower a c
unfolding lex
Lower-trans [] [] c h k = cc
Lower-trans [] (y ∷ ys) [] h k = cc
Lower-trans [] (y ∷ ys) (z ∷ zs) h k = refl
Lower-trans (x ∷ xs) [] c h k = cc
Lower-trans (x ∷ xs) (y ∷ ys) [] h k = cc
Lower-trans (x ∷ xs) (y ∷ ys) (z ∷ zs) h k =
    ground (arith, Lower-trans xs ys zs, Before-trans x y z, cmp-eq x y, cmp-eq y z)

module _ {S : Type 0} where
  abbrev pub Above : List Bytes → Mounts S → Type 0
  Above key = All (λ m. Lower key m.0)

  -- The keys stand in their order, each once.
  abbrev pub IsSorted : Mounts S → Type 0
  IsSorted [] = Unit
  IsSorted ((k, fs) ∷ ms) = Above k ms × IsSorted ms

  pub Above-trans : (a b : List Bytes) (ms : Mounts S) → Lower a b → Above b ms → Above a ms
  Above-trans a b [] h k = tt
  Above-trans a b ((c, fs) ∷ ms) h (k, ks) = (Lower-trans a b c h k, Above-trans a b ms h ks)

module _ {S : Type 0} where
  -- A mount with this key is in the table.
  pub data IsMounted (key : List Bytes) : Mounts S → Type 0 where
    here : {fs : S} {ms : Mounts S} → IsMounted key ((key, fs) ∷ ms)
    later :
        {k : List Bytes} {fs : S} {ms : Mounts S} → IsMounted key ms → IsMounted key ((k, fs) ∷ ms)
