-- ===== src/Arith/Syntax.antt =====
-- src/interpreter/arithmetic.rs: the syntax tree, with the constructors that `eval` matches, and its printing.
use rust_bash.Prelude.{ℕ, ◌+◌, ◌%◌, ◌^◌, ◌++◌}
use rust_bash.Prelude.Bytes.{Bytes, codes}
use rust_bash.Brace.Sequence.{i64_to_string}
use rust_bash.Arith.Word.{
  BinaryOperator, comma, logical_or, logical_and, bitwise_or, bitwise_xor, bitwise_and, equals,
  not_equals, less, greater, less_or_equal, greater_or_equal, shift_left, shift_right, add,
  subtract, multiply, modulo, divide, power,
}

pub data UnaryOperator : Type 0 where
  logical_not : UnaryOperator
  bitwise_not_op : UnaryOperator
  unary_plus : UnaryOperator
  unary_minus : UnaryOperator

pub data UnaryAssignmentOperator : Type 0 where
  prefix_increment : UnaryAssignmentOperator
  postfix_increment : UnaryAssignmentOperator
  prefix_decrement : UnaryAssignmentOperator
  postfix_decrement : UnaryAssignmentOperator

mutual
  pub data ArithmeticExpr : Type 0 where
    literal : ℕ → ArithmeticExpr
    reference : ArithmeticTarget → ArithmeticExpr
    unary_op : UnaryOperator → ArithmeticExpr → ArithmeticExpr
    binary_op : BinaryOperator → ArithmeticExpr → ArithmeticExpr → ArithmeticExpr
    conditional : ArithmeticExpr → ArithmeticExpr → ArithmeticExpr → ArithmeticExpr
    assignment : ArithmeticTarget → ArithmeticExpr → ArithmeticExpr
    binary_assignment : BinaryOperator → ArithmeticTarget → ArithmeticExpr → ArithmeticExpr
    unary_assignment : UnaryAssignmentOperator → ArithmeticTarget → ArithmeticExpr

  pub data ArithmeticTarget : Type 0 where
    variable : Bytes → ArithmeticTarget
    array_element : Bytes → ArithmeticExpr → ArithmeticTarget

-- `n.to_string()`, which brace expansion has for numbers that are 2 ^ 63 above.
unfoldable pub number_to_string : ℕ → Bytes
unfolding i64_to_string
number_to_string n = i64_to_string ((n + 2 ^ 63) % 2 ^ 64)

unfoldable pub binary_op_symbol : BinaryOperator → Bytes
binary_op_symbol comma = codes ","
binary_op_symbol logical_or = codes "||"
binary_op_symbol logical_and = codes "&&"
binary_op_symbol bitwise_or = codes "|"
binary_op_symbol bitwise_xor = codes "^"
binary_op_symbol bitwise_and = codes "&"
binary_op_symbol equals = codes "=="
binary_op_symbol not_equals = codes "!="
binary_op_symbol less = codes "<"
binary_op_symbol greater = codes ">"
binary_op_symbol less_or_equal = codes "<="
binary_op_symbol greater_or_equal = codes ">="
binary_op_symbol shift_left = codes "<<"
binary_op_symbol shift_right = codes ">>"
binary_op_symbol add = codes "+"
binary_op_symbol subtract = codes "-"
binary_op_symbol multiply = codes "*"
binary_op_symbol modulo = codes "%"
binary_op_symbol divide = codes "/"
binary_op_symbol power = codes "**"

abbrev pub unary_op_symbol : UnaryOperator → Bytes
unary_op_symbol logical_not = codes "!"
unary_op_symbol bitwise_not_op = codes "~"
unary_op_symbol unary_plus = codes "+"
unary_op_symbol unary_minus = codes "-"

abbrev pub around : UnaryAssignmentOperator → Bytes → Bytes
around prefix_increment target = codes "++" ++ target
around prefix_decrement target = codes "--" ++ target
around postfix_increment target = target ++ codes "++"
around postfix_decrement target = target ++ codes "--"

unfoldable mutual
  unfolding number_to_string binary_op_symbol

  pub render_index_for_message : ArithmeticExpr → Bytes
  render_index_for_message (literal n) = number_to_string n
  render_index_for_message (reference target) = render_target_for_message target
  render_index_for_message (unary_op op inner) =
      unary_op_symbol op ++ render_index_for_message inner
  render_index_for_message (binary_op op l r) =
      render_index_for_message l ++ binary_op_symbol op ++ render_index_for_message r
  render_index_for_message (conditional c t f) =
      render_index_for_message c
      ++ codes "?"
      ++ render_index_for_message t
      ++ codes ":"
      ++ render_index_for_message f
  render_index_for_message (assignment t v) =
      render_target_for_message t ++ codes "=" ++ render_index_for_message v
  render_index_for_message (binary_assignment op t v) =
      render_target_for_message t ++ binary_op_symbol op ++ codes "=" ++ render_index_for_message v
  render_index_for_message (unary_assignment op t) = around op (render_target_for_message t)

  pub render_target_for_message : ArithmeticTarget → Bytes
  render_target_for_message (variable name) = name
  render_target_for_message (array_element name idx) =
      name ++ codes "[" ++ render_index_for_message idx ++ codes "]"
