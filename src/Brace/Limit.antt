-- ===== src/Brace/Limit.antt =====
-- src/interpreter/brace.rs: `max_results` and the loops that push results.
use rust_bash.Prelude.{
  ℕ, zero, suc, List, [], ◌∷◌, ◌++◌, none, some, arith, length, ◌<◌, ◌≤◌, push, ok, err, ◌>>=◌, inl,
  inr, ◌⊎◌, Option-cases, Bool-cases, leb, ltb, Result-cases,
}
use rust_bash.Prelude.Bytes.{Bytes}
use rust_bash.Brace.Scan.{find_brace_pair, split_alternatives}
use rust_bash.Brace.Sequence.{check_limit, try_sequence_expansion}
use rust_bash.Brace.Expand.{
  Expanded, push_all, prefixed, expand_sequence, expand_alternatives, expand_body, expand_found,
  expand_pair, expand_recursive, brace_expand,
}

-- One result at most, or fewer than `max`.
abbrev pub Within : ℕ → List Bytes → Type 0
Within max xs = (length xs ≤ 1) ⊎ (length xs < max)

abbrev pub WithinLimit : ℕ → Expanded → Type 0
WithinLimit max (ok xs) = Within max xs
WithinLimit max (err _) = Unit

then-Within :
    (max : ℕ) (m : Expanded) (f : List Bytes → Expanded)
    → WithinLimit max m
    → ((xs : List Bytes) → Within max xs → WithinLimit max (f xs))
    → WithinLimit max (m >>= f)
then-Within max (ok xs) f h k = k xs h
then-Within max (err e) f h k = tt

push_all-Within :
    (max : ℕ) (done items : List Bytes)
    → Within max done
    → WithinLimit max (push_all max done items)
unfolding push_all check_limit
push_all-Within max done [] h = h
push_all-Within max done (x ∷ xs) h = elim (Bool-cases (leb max (length (push done x)))) [
  | inl e ↦ rw e tt
  | inr e ↦ rw e (push_all-Within max (push done x) xs (inr (ground arith)))
]

module _ (max : ℕ) (expand : Bytes → Expanded) (prefix suffix : Bytes) where
  expand_sequence-Within :
      (seq done : List Bytes)
      → Within max done
      → WithinLimit max (expand_sequence max prefix (expand suffix) done seq)
  unfolding expand_sequence
  expand_sequence-Within [] done h = h
  expand_sequence-Within (item ∷ seq) done h =
      then-Within max _ _
        (elim (Result-cases (expand suffix)) [
          | inl (xs, e) ↦
              rw (e, WithinLimit) (push_all-Within max done (prefixed (prefix ++ item) xs) h)
          | inr (x, e) ↦ rw (e, WithinLimit) tt
        ])
        (λ xs k. expand_sequence-Within seq xs k)

  expand_alternatives-Within :
      (alts done : List Bytes)
      → Within max done
      → WithinLimit max (expand_alternatives max expand prefix suffix done alts)
  unfolding expand_alternatives
  expand_alternatives-Within [] done h = h
  expand_alternatives-Within (alt ∷ alts) done h =
      then-Within max _ _
        (elim (Result-cases (expand (prefix ++ alt ++ suffix))) [
          | inl (xs, e) ↦ rw (e, WithinLimit) (push_all-Within max done xs h)
          | inr (x, e) ↦ rw (e, WithinLimit) tt
        ])
        (λ xs k. expand_alternatives-Within alts xs k)

  expand_body-Within : (body : Bytes) → WithinLimit max (expand_body max expand prefix body suffix)
  unfolding expand_body
  expand_body-Within body =
      let parts = split_alternatives 0 0 body in
      elim (Bool-cases (ltb (length parts) 2)) [
        | inr e ↦ rw (e, WithinLimit) (expand_alternatives-Within parts [] (inl (omega arith)))
        | inl e ↦
            rw (e, WithinLimit)
              (elim (Result-cases (expand suffix)) [
                | inl (xs, h) ↦ rw (h, WithinLimit) (push_all-Within max [] _ (inl (omega arith)))
                | inr (x, h) ↦ rw (h, WithinLimit) tt
              ])
      ]

  expand_pair-Within : (body : Bytes) → WithinLimit max (expand_pair max expand prefix body suffix)
  unfolding expand_pair expand_found
  expand_pair-Within body = elim (Result-cases (try_sequence_expansion body max)) [
    | inr (x, h) ↦ rw (h, WithinLimit) tt
    | inl (none, h) ↦ rw (h, WithinLimit) (expand_body-Within body)
    | inl (some seq, h) ↦ rw (h, WithinLimit) (expand_sequence-Within seq [] (inl (omega arith)))
  ]

expand_recursive-Within :
    (fuel max : ℕ) (input : Bytes) → WithinLimit max (expand_recursive fuel max input)
unfolding expand_recursive
expand_recursive-Within zero max input = tt
expand_recursive-Within (suc fuel) max input = elim (Option-cases (find_brace_pair 0 input)) [
  | inl e ↦ rw (e, WithinLimit) (inl (omega arith))
  | inr ((prefix, body, suffix), e) ↦
      rw (e, WithinLimit) (expand_pair-Within max (expand_recursive fuel max) prefix suffix body)
]

-- Where `brace_expand` succeeds, its results are at most one or fewer than `max_results`.
pub brace_expand-Within : (input : Bytes) (max : ℕ) → WithinLimit max (brace_expand input max)
unfolding brace_expand
brace_expand-Within input max = expand_recursive-Within (suc (length input)) max input
