-- ===== src/Brace/Fuel.antt =====
-- src/interpreter/brace.rs: the loops and the recursion of `brace_expand`, and their rounds.
use rust_bash.Prelude.{
  ◌≡◌, ap, ◌∙◌, ℕ, zero, suc, ◌+◌, ◌-◌, List, [], ◌∷◌, ◌++◌, Bool, true, false, Option, none, some,
  if◌then◌else◌, arith, length, ◌<◌, ◌≤◌, push, Result, ok, err, ◌>>=◌, inl, inr, Option-cases,
  Bool-cases, leb, ltb, length-append, All, subst,
}
use rust_bash.Prelude.Bytes.{Bytes}
use rust_bash.Brace.Scan.{find_brace_pair, split_alternatives}
use rust_bash.Brace.Sequence.{
  RustBashError, limit_exceeded, expansion_error, execution, out_of_fuel, check_limit,
  try_sequence_expansion, count_loop, counted, checked_add, checked_sub, checked_add_u32,
  format_padded, i64_zero, some_items, in_steps, of_parts, numbers, characters, number_sequence,
  character_sequence, sequence, split_dots, step_of, same_class, mixed_case, bad_brace_expansion,
  parse_i64, both, parse_single_char,
}
use rust_bash.Brace.Expand.{
  Expanded, push_all, prefixed, expand_sequence, expand_alternatives, expand_body, expand_found,
  expand_pair, expand_recursive, brace_expand,
}
use rust_bash.Brace.Slices.{commas, commas-split_alternatives, find_brace_pair-Splits, Splits}

-- Not the model's error for a loop without rounds left.
abbrev pub Ends : {A : Type 0} → Result A RustBashError → Type 0
Ends (ok _) = Unit
Ends (err (limit_exceeded _ _)) = Unit
Ends (err (expansion_error _)) = Unit
Ends (err (execution _)) = Unit
Ends (err out_of_fuel) = ⊥

then-Ends :
    {A B : Type 0} (m : Result A RustBashError) (f : A → Result B RustBashError)
    → Ends m
    → ((a : A) → Ends (f a))
    → Ends (m >>= f)
then-Ends (ok a) f h k = k a
then-Ends (err (limit_exceeded _ _)) f h k = tt
then-Ends (err (expansion_error _)) f h k = tt
then-Ends (err (execution _)) f h k = tt
then-Ends (err out_of_fuel) f h k = h

check_limit-Ends : (count max : ℕ) → Ends (check_limit count max)
unfolding check_limit
check_limit-Ends count max = elim (Bool-cases (leb max count)) [
  | inl e ↦ rw (e, Ends) tt
  | inr e ↦ rw (e, Ends) tt
]

module _ (goes_on : ℕ → Bool) (next : ℕ → Option ℕ) (show : ℕ → Bytes) (max : ℕ) where
  count_loop-Ends :
      (fuel count val : ℕ)
      → max < fuel + count
      → count ≤ max
      → Ends (count_loop goes_on next show max fuel count val)
  unfolding count_loop check_limit
  count_loop-Ends zero count val h k = absurd (omega arith)
  count_loop-Ends (suc fuel) count val h k = elim (Bool-cases (goes_on val)) [
    | inr e ↦ rw (e, Ends) tt
    | inl e ↦ elim (Bool-cases (leb max (suc count))) [
      | inl l ↦ rw (e, l, Ends) tt
      | inr l ↦ elim (Option-cases (next val)) [
        | inl n ↦ rw (e, l, n, Ends) tt
        | inr (v, n) ↦
            rw (e, l, n, Ends)
              (then-Ends (count_loop goes_on next show max fuel (suc count) v) _
                (count_loop-Ends fuel (suc count) v (omega arith) (ground arith)) (λ _. tt))
      ]
    ]
  ]

some_items-Ends : (r : Result (List Bytes) RustBashError) → Ends r → Ends (some_items r)
some_items-Ends r h = then-Ends r _ h (λ _. tt)

if-Ends :
    {A : Type 0} (b : Bool) (x y : Result A RustBashError)
    → Ends x
    → Ends y
    → Ends (if b then x else y)
if-Ends true x y h k = h
if-Ends false x y h k = k

counted-Ends :
    (goes_on : ℕ → Bool) (next : ℕ → Option ℕ) (show : ℕ → Bytes) (max val : ℕ)
    → Ends (counted goes_on next show max val)
unfolding counted
counted-Ends goes_on next show max val =
    count_loop-Ends goes_on next show max (suc max) 0 val (omega arith) (omega arith)

numbers-Ends : (start end step width max : ℕ) → Ends (numbers start end step width max)
unfolding numbers
numbers-Ends start end step width max =
    if-Ends (leb start end) _ _
      (counted-Ends (λ v. leb v end) (checked_add step) (format_padded width) max start)
      (counted-Ends (λ v. leb end v) (checked_sub step) (format_padded width) max start)

characters-Ends : (start end step max : ℕ) → Ends (characters start end step max)
unfolding characters
characters-Ends start end step max =
    if-Ends (leb start end) _ _
      (counted-Ends (λ v. leb v end) (checked_add_u32 step) (λ v. v ∷ []) max start)
      (counted-Ends (λ v. leb (i64_zero + end) v) (checked_sub step) (λ v. (v - i64_zero) ∷ []) max
        (i64_zero + start))

in_steps-Ends :
    (f : ℕ → Result (List Bytes) RustBashError) (o : Option ℕ)
    → ((s : ℕ) → Ends (f s))
    → Ends (in_steps f o)
in_steps-Ends f none h = tt
in_steps-Ends f (some s) h = some_items-Ends (f s) (h s)

number_sequence-Ends :
    (a b : Bytes) (t : Option Bytes) (start end max : ℕ)
    → Ends (number_sequence a b t start end max)
unfolding number_sequence
number_sequence-Ends a b t start end max =
    in_steps-Ends _ (step_of t) (λ s. numbers-Ends start end s _ max)

character_sequence-Ends :
    (body : Bytes) (t : Option Bytes) (start end max : ℕ)
    → Ends (character_sequence body t start end max)
unfolding character_sequence
character_sequence-Ends body t start end max =
    if-Ends (mixed_case start end) (bad_brace_expansion body) _ tt (
      if-Ends (same_class start end) _ (ok none)
        (in_steps-Ends (λ s. characters start end s max) (step_of t)
          (λ s. characters-Ends start end s max))
        tt)

sequence-Ends : (body a b : Bytes) (t : Option Bytes) (max : ℕ) → Ends (sequence body a b t max)
unfolding sequence
sequence-Ends body a b t max = elim (Option-cases (both (parse_i64 a) (parse_i64 b))) [
  | inr ((start, end), e) ↦ rw (e, Ends) (number_sequence-Ends a b t start end max)
  | inl e ↦ elim (Option-cases (both (parse_single_char a) (parse_single_char b))) [
    | inr ((c, d), h) ↦ rw (e, h, Ends) (character_sequence-Ends body t c d max)
    | inl h ↦ rw (e, h, Ends) tt
  ]
]

of_parts-Ends : (body : Bytes) (max : ℕ) (parts : List Bytes) → Ends (of_parts body max parts)
of_parts-Ends body max [] = tt
of_parts-Ends body max (a ∷ []) = tt
of_parts-Ends body max (a ∷ b ∷ []) = sequence-Ends body a b none max
of_parts-Ends body max (a ∷ b ∷ c ∷ []) = sequence-Ends body a b (some c) max
of_parts-Ends body max (a ∷ b ∷ c ∷ d ∷ ws) = tt

try_sequence_expansion-Ends : (body : Bytes) (max : ℕ) → Ends (try_sequence_expansion body max)
unfolding try_sequence_expansion
try_sequence_expansion-Ends body max = of_parts-Ends body max (split_dots body)

push_all-Ends : (max : ℕ) (done items : List Bytes) → Ends (push_all max done items)
unfolding push_all
push_all-Ends max done [] = tt
push_all-Ends max done (x ∷ xs) =
    then-Ends (check_limit (length (push done x)) max) _ (check_limit-Ends _ max)
      (λ _. push_all-Ends max (push done x) xs)

module _ (max : ℕ) (expand : Bytes → Expanded) (prefix suffix : Bytes) where
  expand_sequence-Ends :
      (seq done : List Bytes)
      → Ends (expand suffix)
      → Ends (expand_sequence max prefix (expand suffix) done seq)
  unfolding expand_sequence
  expand_sequence-Ends [] done h = tt
  expand_sequence-Ends (item ∷ seq) done h =
      then-Ends (expand suffix >>= λ s. push_all max done (prefixed (prefix ++ item) s)) _
        (then-Ends (expand suffix) _ h (λ s. push_all-Ends max done _))
        (λ xs. expand_sequence-Ends seq xs h)

  expand_alternatives-Ends :
      (alts done : List Bytes)
      → All (λ alt. Ends (expand (prefix ++ alt ++ suffix))) alts
      → Ends (expand_alternatives max expand prefix suffix done alts)
  unfolding expand_alternatives
  expand_alternatives-Ends [] done h = tt
  expand_alternatives-Ends (alt ∷ alts) done (h, hs) =
      then-Ends (expand (prefix ++ alt ++ suffix) >>= λ s. push_all max done s) _
        (then-Ends (expand (prefix ++ alt ++ suffix)) _ h (λ s. push_all-Ends max done s))
        (λ xs. expand_alternatives-Ends alts xs hs)

  expand_found-Ends :
      (body : Bytes) (found : Option (List Bytes))
      → Ends (expand suffix)
      → All (λ alt. Ends (expand (prefix ++ alt ++ suffix))) (split_alternatives 0 0 body)
      → Ends (expand_found max expand prefix body suffix found)
  unfolding expand_found expand_body
  expand_found-Ends body (some seq) h hs = expand_sequence-Ends seq [] h
  expand_found-Ends body none h hs =
      let front = prefix ++ b'{' ∷ body ++ b'}' ∷ [] in
      if-Ends (ltb (length (split_alternatives 0 0 body)) 2) _ _
        (then-Ends (expand suffix) (λ s. push_all max [] (prefixed front s)) h
          (λ s. push_all-Ends max [] _))
        (expand_alternatives-Ends (split_alternatives 0 0 body) [] hs)

  expand_pair-Ends :
      (body : Bytes)
      → Ends (expand suffix)
      → All (λ alt. Ends (expand (prefix ++ alt ++ suffix))) (split_alternatives 0 0 body)
      → Ends (expand_pair max expand prefix body suffix)
  unfolding expand_pair
  expand_pair-Ends body h hs =
      then-Ends (try_sequence_expansion body max) _ (try_sequence_expansion-Ends body max)
        (λ found. expand_found-Ends body found h hs)

-- No part is longer than the parts with commas between them.
commas-bound : (ws : List Bytes) (n : ℕ) → length (commas ws) ≤ n → All (λ w. length w ≤ n) ws
commas-bound [] n h = tt
commas-bound (w ∷ []) n h = (h, tt)
commas-bound (w ∷ v ∷ ws) n h =
    let e = length-append w (b',' ∷ commas (v ∷ ws)) in
    (omega (arith, e), commas-bound (v ∷ ws) n (omega (arith, e)))

All-map : (P Q : Bytes → Type 0) (ws : List Bytes) → ((w : Bytes) → P w → Q w) → All P ws → All Q ws
All-map P Q [] f h = tt
All-map P Q (w ∷ ws) f (h, hs) = (f w h, All-map P Q ws f hs)

length-pair :
    (prefix body suffix : Bytes)
    → length (prefix ++ b'{' ∷ body ++ b'}' ∷ suffix)
      ≡ length prefix + (2 + (length body + length suffix))
length-pair [] body suffix = omega (arith, length-append body (b'}' ∷ suffix))
length-pair (c ∷ prefix) body suffix = omega (arith, length-pair prefix body suffix)

shorter :
    (prefix w body suffix : Bytes) (n fuel : ℕ)
    → n ≡ length prefix + (2 + (length body + length suffix))
    → length w ≤ length body
    → n < suc fuel
    → length (prefix ++ w ++ suffix) < fuel
shorter prefix w body suffix n fuel size k h =
    rw (length-append (prefix ++ w) suffix, length-append prefix w) (omega arith)

expand_recursive-Ends :
    (fuel max : ℕ) (input : Bytes) → length input < fuel → Ends (expand_recursive fuel max input)
unfolding expand_recursive
expand_recursive-Ends zero max input h = absurd (omega arith)
expand_recursive-Ends (suc fuel) max input h = elim (Option-cases (find_brace_pair 0 input)) [
  | inl e ↦ rw (e, Ends) tt
  | inr ((prefix, body, suffix), e) ↦
      let cut : Splits input (some (prefix, body, suffix)) =
        subst (Splits input) e (find_brace_pair-Splits 0 input) in
      let size : length input ≡ length prefix + (2 + (length body + length suffix)) =
        ap length cut ∙ length-pair prefix body suffix in
      rw (e, Ends)
        (expand_pair-Ends max (expand_recursive fuel max) prefix suffix body
          (expand_recursive-Ends fuel max suffix (omega arith))
          (All-map (λ w. length w ≤ length body)
            (λ w. Ends (expand_recursive fuel max (prefix ++ w ++ suffix)))
            (split_alternatives 0 0 body)
            (λ w k.
              expand_recursive-Ends fuel max (prefix ++ w ++ suffix)
                (shorter prefix w body suffix (length input) fuel size k h))
            (commas-bound (split_alternatives 0 0 body) (length body)
              (rw (commas-split_alternatives 0 0 body) (omega arith)))))
]

-- `brace_expand` ends: with the fuel that it has, neither its recursion nor a loop runs out of rounds.
pub brace_expand-Ends : (input : Bytes) (max : ℕ) → Ends (brace_expand input max)
unfolding brace_expand
brace_expand-Ends input max = expand_recursive-Ends (suc (length input)) max input (omega arith)
