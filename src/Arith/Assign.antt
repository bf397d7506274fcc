-- ===== src/Arith/Assign.antt =====
-- src/interpreter/arithmetic.rs: assignments, and what is read after them.
use rust_bash.Prelude.{◌≡◌, refl, ℕ, ◌-◌, ◌^◌, Option, Result, ok, err}
use rust_bash.Prelude.Bytes.{Bytes}
use rust_bash.Brace.Sequence.{RustBashError}
use rust_bash.Arith.Word.{add, subtract, wrapping_add}
use rust_bash.Arith.Syntax.{
  ArithmeticExpr, literal, reference, assignment, binary_assignment, unary_assignment,
  ArithmeticTarget, variable, prefix_increment, postfix_increment, prefix_decrement,
  postfix_decrement,
}
use rust_bash.Arith.Store.{Store}
use rust_bash.Arith.Eval.{◌then_do◌, eval, read_target, write_target, mapped}

module _ {State : Type 0} (store : Store State) (placeholders : Bytes → Option Bytes) where
  -- What `kept` picks of the two values does not matter to the state.
  postfix_lem :
      (f g : ℕ → ℕ) (old : Result ℕ RustBashError × State)
      (write : ℕ → State → Result (Unit {0}) RustBashError × State)
      → (old then_do λ o s1. write (g o) s1 then_do λ _ s2. (ok o, s2)).1
        ≡ (old then_do λ o s1. write (g o) s1 then_do λ _ s2. (ok (f o), s2)).1
  postfix_lem f g (err e, s) write = refl
  postfix_lem f g (ok o, s) write = written (write (g o) s)
    where
      written :
          (w : Result (Unit {0}) RustBashError × State)
          → (w then_do λ _ s2. (ok o, s2)).1 ≡ (w then_do λ _ s2. (ok (f o), s2)).1
      written (err e, s) = refl
      written (ok u, s) = refl

  -- For every target, `++t` is `t += 1` and `--t` is `t -= 1`, in the result and in the state that is left, and
  -- `t++` and `t--` leave the same state.
  pub unary_assignment-binary_assignment :
      (t : ArithmeticTarget) (s : State)
      → (eval store placeholders (unary_assignment prefix_increment t) s
          ≡ eval store placeholders (binary_assignment add t (literal 1)) s)
        × (eval store placeholders (unary_assignment prefix_decrement t) s
            ≡ eval store placeholders (binary_assignment subtract t (literal 1)) s)
        × ((eval store placeholders (unary_assignment postfix_increment t) s).1
            ≡ (eval store placeholders (binary_assignment add t (literal 1)) s).1)
        × ((eval store placeholders (unary_assignment postfix_decrement t) s).1
            ≡ (eval store placeholders (binary_assignment subtract t (literal 1)) s).1)
  unfolding eval
  unary_assignment-binary_assignment t s = (
    refl,
    refl,
    postfix_lem (λ o. wrapping_add o 1) (λ o. wrapping_add o 1) (read_target store placeholders t s)
        (write_target store placeholders t),
    postfix_lem (λ o. wrapping_add o (2 ^ 64 - 1)) (λ o. wrapping_add o (2 ^ 64 - 1))
        (read_target store placeholders t s) (write_target store placeholders t),
  )

  -- What an assignment that succeeds has written.
  written_last :
      (name : Bytes) (v : ℕ) (s' : State) (value : Result ℕ RustBashError × State)
      → (value then_do λ w s1. store.set_variable s1 name w then_do λ _ s2. (ok w, s2)) ≡ (ok v, s')
      → (s1 : State) × (store.set_variable s1 name v ≡ (ok tt, s'))
  written_last name v s' (err e, s) h = cc
  written_last name v s' (ok w, s) h = through (store.set_variable s name w) refl h
    where
      through :
          (r : Result (Unit {0}) RustBashError × State)
          → store.set_variable s name w ≡ r
          → (r then_do λ _ s2. (ok w, s2)) ≡ (ok v, s')
          → (s1 : State) × (store.set_variable s1 name v ≡ (ok tt, s'))
      through (err e, s2) k h = cc
      through (ok u, s2) k h =
          let same : w ≡ v = cc in let same_state : s2 ≡ s' = cc in (s, rw (← same, ← same_state) k)

  -- Where the store reads back what it writes to a variable, and the name is no placeholder, an assignment that
  -- succeeds gives its value to the variable and nothing else is read there next.
  pub assignment-reference :
      (name : Bytes) (rhs : ArithmeticExpr) (s s' : State) (v : ℕ)
      → ((w : ℕ) (s1 s2 : State)
          → store.set_variable s1 name w ≡ (ok tt, s2)
          → store.read_var s2 name ≡ (ok w, s2))
      → mapped name ≡ name
      → eval store placeholders (assignment (variable name) rhs) s ≡ (ok v, s')
      → eval store placeholders (reference (variable name)) s' ≡ (ok v, s')
  unfolding eval
  assignment-reference name rhs s s' v reads_back plain done = rw plain (
      let (s1, wrote) = written_last name v s' (eval store placeholders rhs s) done in
      reads_back v s1 s' wrote)
