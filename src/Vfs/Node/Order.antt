-- ===== src/Vfs/Node/Order.antt =====
-- The order of names, `Ord` for `String`, in which src/vfs/mod.rs keeps a directory's children.
use Prim.Native.Nat.{Ordering}
use rust_bash.Prelude.{◌≡◌, refl, [], ◌∷◌, arith, ◌≢◌}
use rust_bash.Prelude.Bytes.{Bytes}
use rust_bash.Vfs.Node.{cmp}

pub cmp_refl : (a : Bytes) → cmp a a ≡ Ordering.eq
unfolding cmp
cmp_refl [] = refl
cmp_refl (x ∷ xs) = ground (arith, cmp_refl xs)

pub cmp-eq : (a b : Bytes) → cmp a b ≡ Ordering.eq → a ≡ b
unfolding cmp
cmp-eq [] [] h = refl
cmp-eq [] (y ∷ ys) h = cc
cmp-eq (x ∷ xs) [] h = cc
cmp-eq (x ∷ xs) (y ∷ ys) h = ground (arith, cmp-eq xs ys)

-- `a` comes before `b`.
abbrev pub Before : Bytes → Bytes → Type 0
Before a b = cmp a b ≡ Ordering.lt

pub cmp-gt : (a b : Bytes) → cmp a b ≡ Ordering.gt → Before b a
unfolding cmp
cmp-gt [] [] h = cc
cmp-gt [] (y ∷ ys) h = cc
cmp-gt (x ∷ xs) [] h = refl
cmp-gt (x ∷ xs) (y ∷ ys) h = ground (arith, cmp-gt xs ys)

pub Before-trans : (a b c : Bytes) → Before a b → Before b c → Before a c
unfolding cmp
Before-trans [] [] c h k = cc
Before-trans [] (y ∷ ys) [] h k = cc
Before-trans [] (y ∷ ys) (z ∷ zs) h k = refl
Before-trans (x ∷ xs) [] c h k = cc
Before-trans (x ∷ xs) (y ∷ ys) [] h k = cc
Before-trans (x ∷ xs) (y ∷ ys) (z ∷ zs) h k = ground (arith, Before-trans xs ys zs)

pub Before-ne : (a b : Bytes) → Before a b → a ≢ b
Before-ne a b h e = ground (arith, cmp_refl a)
