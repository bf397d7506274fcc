-- ===== src/Arith/Eval.antt =====
-- src/interpreter/arithmetic.rs: `Evaluator`. A call gives a result and the state it leaves, on errors too.
use rust_bash.Prelude.{
  ℕ, ◌-◌, ◌^◌, Bool, true, false, not, ◌&&◌, Option, none, some, if◌then◌else◌, ◌==◌, [], ◌∷◌, ◌++◌,
  Result, ok, err,
}
use rust_bash.Prelude.Bytes.{Bytes, codes, beq}
use rust_bash.Brace.Sequence.{RustBashError, execution}
use rust_bash.Arith.Word.{
  BinaryOperator, comma, logical_or, logical_and, from_bool, wrapping_add, wrapping_neg,
  bitwise_not, apply_binary_arith,
}
use rust_bash.Arith.Syntax.{
  UnaryOperator, logical_not, bitwise_not_op, unary_plus, unary_minus, UnaryAssignmentOperator,
  prefix_increment, postfix_increment, prefix_decrement, postfix_decrement, ArithmeticExpr, literal,
  reference, unary_op, binary_op, conditional, assignment, binary_assignment, unary_assignment,
  ArithmeticTarget, variable, array_element, number_to_string, render_index_for_message,
}
use rust_bash.Arith.Store.{Store}

-- `strip_prefix` and `strip_suffix` of `str`
unfoldable pub strip_front : Bytes → Bytes → Option Bytes
strip_front [] name = some name
strip_front (c ∷ p) [] = none
strip_front (c ∷ p) (d ∷ name) = let rest = strip_front p name in if c == d then rest else none

unfoldable pub strip_back : Bytes → Bytes → Option Bytes
unfolding beq
strip_back s [] = if beq s [] then some [] else none
strip_back s (c ∷ name) =
    let rest = strip_back s name in
    if beq s (c ∷ name) then some [] else elim rest [ some r ↦ some (c ∷ r) | none ↦ none ]

abbrev pub strip_both : Bytes → Option Bytes → Bytes
strip_both name none = name
strip_both name (some rest) = elim (strip_back (codes "__") rest) [ some r ↦ r | none ↦ name ]

-- The variable behind a placeholder.
unfoldable pub mapped : Bytes → Bytes
unfolding strip_front strip_back beq
mapped name =
    if beq name (codes "__RB_ARITH_HASH__")
    then codes "#"
    else if beq name (codes "__RB_ARITH_QUESTION__")
    then codes "?"
    else strip_both name (strip_front (codes "__RB_ARITH_POS_") name)

infixl 5 ◌then_do◌
-- `?` before what follows, which takes the value and the state.
abbrev pub ◌then_do◌ :
    {State A B : Type 0}
    → Result A RustBashError × State
    → (A → State → Result B RustBashError × State)
    → Result B RustBashError × State
(ok a, s) then_do next = next a s
(err e, s) then_do next = (err e, s)

unfoldable pub apply_unary : UnaryOperator → ℕ → ℕ
unfolding wrapping_neg bitwise_not
apply_unary logical_not v = from_bool (v == 0)
apply_unary bitwise_not_op v = bitwise_not v
apply_unary unary_plus v = v
apply_unary unary_minus v = wrapping_neg v

-- What is added: 1 or -1.
abbrev pub step : UnaryAssignmentOperator → ℕ
step prefix_increment = 1
step postfix_increment = 1
step prefix_decrement = 2 ^ 64 - 1
step postfix_decrement = 2 ^ 64 - 1

-- The value of the expression, of the new one and the old one.
abbrev pub kept : UnaryAssignmentOperator → ℕ → ℕ → ℕ
kept prefix_increment new old = new
kept prefix_decrement new old = new
kept postfix_increment new old = old
kept postfix_decrement new old = old

abbrev pub Evaluation : Type 0 → Type 0 → Type 0
Evaluation State A = State → Result A RustBashError × State

abbrev pub unbound : {State A : Type 0} → Bytes → Bytes → Evaluation State A
unbound name key =
    λ s. (err (execution (name ++ codes "[" ++ key ++ codes "]: unbound variable")), s)

-- `eval_binary`, given the evaluations of the two sides.
unfoldable pub eval_binary :
    {State : Type 0} → BinaryOperator → Evaluation State ℕ → Evaluation State ℕ → Evaluation State ℕ
unfolding apply_binary_arith
eval_binary comma l r = λ s. l s then_do λ _ s1. r s1
eval_binary logical_or l r = λ s. l s then_do λ v s1. elim (v == 0) [
  | false ↦ (ok 1, s1)
  | true ↦ r s1 then_do λ w s2. (ok (from_bool (not (w == 0))), s2)
]
eval_binary logical_and l r = λ s. l s then_do λ v s1. elim (v == 0) [
  | true ↦ (ok 0, s1)
  | false ↦ r s1 then_do λ w s2. (ok (from_bool (not (w == 0))), s2)
]
eval_binary op l r = λ s. l s then_do λ v s1. r s1 then_do λ w s2. (apply_binary_arith op v w, s2)

module _ {State : Type 0} (store : Store State) (placeholders : Bytes → Option Bytes) where
  unfoldable pub render_assoc_key : ArithmeticExpr → Bytes
  unfolding render_index_for_message number_to_string
  render_assoc_key (reference (variable name)) = elim (placeholders name) [
    | some key ↦ key
    | none ↦ name
  ]
  render_assoc_key (literal n) = number_to_string n
  render_assoc_key other = render_index_for_message other

  -- `state.shell_opts.nounset && !state.env.contains_key(&resolved)`
  abbrev pub is_unbound : State → Bytes → Bool
  is_unbound s resolved = store.nounset s && not (store.contains_key s resolved)

  unfoldable mutual
    unfolding eval_binary apply_unary wrapping_add apply_binary_arith mapped render_assoc_key
        render_index_for_message

    pub eval : ArithmeticExpr → Evaluation State ℕ
    eval (literal n) = λ s. (ok n, s)
    eval (reference target) = read_target target
    eval (unary_op op inner) = λ s. eval inner s then_do λ v s1. (ok (apply_unary op v), s1)
    eval (binary_op op lhs rhs) = eval_binary op (eval lhs) (eval rhs)
    eval (conditional cond then_branch else_branch) = λ s. eval cond s then_do λ v s1.
        elim (v == 0) [ true ↦ eval else_branch s1 | false ↦ eval then_branch s1 ]
    eval (assignment target rhs) =
        λ s. eval rhs s then_do λ v s1. write_target target v s1 then_do λ _ s2. (ok v, s2)
    eval (binary_assignment op target rhs) = λ s. eval rhs s then_do λ r s1.
        read_target target s1 then_do λ l s2. (apply_binary_arith op l r, s2) then_do λ v s3.
        write_target target v s3 then_do λ _ s4. (ok v, s4)
    eval (unary_assignment op target) = λ s. read_target target s then_do λ old s1.
        write_target target (wrapping_add old (step op)) s1 then_do λ _ s2.
        (ok (kept op (wrapping_add old (step op)) old), s2)

    pub read_target : ArithmeticTarget → Evaluation State ℕ
    read_target (variable name) = λ s. store.read_var s (mapped name)
    read_target (array_element name index) = λ s.
        elim (store.is_assoc_array s (store.resolve_nameref_or_self s name)) [
          | true ↦ elim (is_unbound s (store.resolve_nameref_or_self s name)) [
            | true ↦ unbound name (render_assoc_key index) s
            | false ↦
                store.read_assoc_element s (store.resolve_nameref_or_self s name)
                  (render_assoc_key index)
          ]
          | false ↦ elim (is_unbound s (store.resolve_nameref_or_self s name)) [
            | true ↦ unbound name (render_index_for_message index) s
            | false ↦ eval index s then_do λ i s1.
                store.read_indexed_element s1 (store.resolve_nameref_or_self s name) i
          ]
        ]

    pub write_target : ArithmeticTarget → ℕ → Evaluation State (Unit {0})
    write_target (variable name) v = λ s. store.set_variable s name v
    write_target (array_element name index) v = λ s.
        elim (store.is_assoc_array s (store.resolve_nameref_or_self s name)) [
          | true ↦
              store.set_assoc_element s (store.resolve_nameref_or_self s name)
                (render_assoc_key index) v
          | false ↦ eval index s then_do λ i s1.
              store.write_indexed_element s1 (store.resolve_nameref_or_self s name) i v
        ]
