-- ===== src/Prelude/Results.antt =====
-- Rust's `Result`, with `?` as bind.
use mathlib.Core.Path.{◌≡◌, refl}
use mathlib.Core.Bool.{Bool, true, false}
use mathlib.Core.Logic.{◌⊎◌, inl, inr}

pub data Result (A E : Type 0) : Type 0 where
  ok : A → Result A E
  err : E → Result A E

-- `?` in the middle of a function, and at its end.
infixl 5 ◌>>=◌ ◌>>◌
abbrev pub ◌>>=◌ :
    {Given Made Fault : Type 0}
    → Result Given Fault
    → (Given → Result Made Fault)
    → Result Made Fault
err fault >>= rest = err fault
ok given >>= rest = rest given

abbrev pub ◌>>◌ :
    {Made Fault : Type 0} → Result (Unit {0}) Fault → Result Made Fault → Result Made Fault
check >> rest = check >>= λ _. rest

abbrev pub is_ok : {A E : Type 0} → Result A E → Bool
is_ok (ok _) = true
is_ok (err _) = false

pub Result-cases :
    {A E : Type 0} (r : Result A E) → ((a : A) × (r ≡ ok a)) ⊎ ((e : E) × (r ≡ err e))
Result-cases (ok a) = inl (a, refl)
Result-cases (err e) = inr (e, refl)

-- Where a chain gets through, its first step did, and the rest went on from what that made.
pub >>=-eq-ok :
    {Given Made Fault : Type 0} (first : Result Given Fault) (rest : Given → Result Made Fault)
    → {last : Made} → (first >>= rest) ≡ ok last
    → (mid : Given) × (first ≡ ok mid) × (rest mid ≡ ok last)
>>=-eq-ok (err fault) rest through = cc
>>=-eq-ok (ok given) rest through = (given, refl, through)
