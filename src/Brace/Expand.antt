-- ===== src/Brace/Expand.antt =====
-- src/interpreter/brace.rs: `brace_expand`.
use rust_bash.Prelude.{
  ℕ, zero, suc, List, [], ◌∷◌, ◌++◌, Option, none, some, if◌then◌else◌, ltb, length, push, map,
  Result, ok, err, ◌>>=◌, ◌>>◌,
}
use rust_bash.Prelude.Bytes.{Bytes}
use rust_bash.Brace.Scan.{find_brace_pair, split_alternatives}
use rust_bash.Brace.Sequence.{RustBashError, out_of_fuel, check_limit, try_sequence_expansion}

abbrev pub Expanded : Type 0
Expanded = Result (List Bytes) RustBashError

-- `for item in … { results.push(item); check_limit(results.len(), max_results)?; }`
unfoldable pub push_all : ℕ → List Bytes → List Bytes → Expanded
unfolding check_limit
push_all max results [] = ok results
push_all max results (item ∷ items) =
    check_limit (length (push results item)) max >> push_all max (push results item) items

abbrev pub prefixed : Bytes → List Bytes → List Bytes
prefixed front items = map (λ s. front ++ s) items

-- The loop over a sequence, given what the suffix expands to.
unfoldable pub expand_sequence : ℕ → Bytes → Expanded → List Bytes → List Bytes → Expanded
unfolding push_all
expand_sequence max prefix suffixes results [] = ok results
expand_sequence max prefix suffixes results (item ∷ seq) =
    suffixes >>= (λ s. push_all max results (prefixed (prefix ++ item) s)) >>= λ grown.
    expand_sequence max prefix suffixes grown seq

-- The loop over the alternatives, given the recursive call.
unfoldable pub expand_alternatives :
    ℕ → (Bytes → Expanded) → Bytes → Bytes → List Bytes → List Bytes → Expanded
unfolding push_all
expand_alternatives max expand prefix suffix results [] = ok results
expand_alternatives max expand prefix suffix results (alt ∷ alts) =
    expand (prefix ++ alt ++ suffix) >>= (λ items. push_all max results items) >>= λ grown.
    expand_alternatives max expand prefix suffix grown alts

-- No sequence: alternatives, or literal braces.
unfoldable pub expand_body : ℕ → (Bytes → Expanded) → Bytes → Bytes → Bytes → Expanded
unfolding expand_alternatives
expand_body max expand prefix body suffix =
    let alternatives = split_alternatives 0 0 body in
    if ltb (length alternatives) 2
    then (expand suffix >>= λ items.
        push_all max [] (prefixed (prefix ++ b'{' ∷ body ++ b'}' ∷ []) items))
    else expand_alternatives max expand prefix suffix [] alternatives

unfoldable pub expand_found :
    ℕ → (Bytes → Expanded) → Bytes → Bytes → Bytes → Option (List Bytes) → Expanded
unfolding expand_sequence expand_body
expand_found max expand prefix body suffix (some seq) =
    expand_sequence max prefix (expand suffix) [] seq
expand_found max expand prefix body suffix none = expand_body max expand prefix body suffix

unfoldable pub expand_pair : ℕ → (Bytes → Expanded) → Bytes → Bytes → Bytes → Expanded
unfolding expand_found
expand_pair max expand prefix body suffix =
    try_sequence_expansion body max >>= λ found. expand_found max expand prefix body suffix found

unfoldable pub expand_recursive : ℕ → ℕ → Bytes → Expanded
unfolding expand_pair
expand_recursive zero max input = err out_of_fuel
expand_recursive (suc fuel) max input = elim (find_brace_pair 0 input) [
  | none ↦ ok (input ∷ [])
  | some (prefix, body, suffix) ↦ expand_pair max (expand_recursive fuel max) prefix body suffix
]

-- The fuel is one level for each byte and one more.
unfoldable pub brace_expand : Bytes → ℕ → Expanded
unfolding expand_recursive
brace_expand input max = expand_recursive (suc (length input)) max input
