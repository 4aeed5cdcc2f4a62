-- ===== src/Executor/Expression.antt =====
-- src/executor/slot_reference.cpp, const_value.cpp, compare.cpp and logic_expr.cpp: values and
-- conditions over a row, or over a row for the left operands and one for the right operands.
pub mod Order
use dbms.Prelude.{
  ℕ, ◌+◌, ◌%◌, ◌^◌, Option, none, some, Bool, true, false, not, ◌&&◌, ◌||◌, Bytes, length, ltb, leb,
  ◌==◌, bytes_eq, bytes_lt, if◌then◌else◌,
}
use dbms.Common.Memory.{read, ◌>>=◌}
use dbms.Common.Memory.Integers.{encode, decode}
use dbms.Common.Define.{
  OperatorType, equal, less, greater, less_or_equal, greater_or_equal, op_and, op_or, op_xor,
}
use dbms.Common.Tuple.{get_slot}
use dbms.Common.Row.{TupleRow, get_tuple}

-- `ValueExprInterface` and its classes; numbers and doubles are their bit patterns.
pub data ValueExpr : Type 0 where
  slot_reference : ℕ → ℕ → ValueExpr
  varchar_const_value : Bytes → ValueExpr
  integer_const_value : ℕ → ValueExpr
  float_const_value : ℕ → ValueExpr

-- `BooleanExprInterface` and its classes
pub data BooleanExpr : Type 0 where
  varchar_compare integer_compare float_compare : OperatorType → ValueExpr → ValueExpr → BooleanExpr
  logic_expr : OperatorType → BooleanExpr → BooleanExpr → BooleanExpr

-- What `GetValue` returns: a pointer into a block, and the length.
pub record Value : Type 0 where
  pub block : Bytes
  pub offset : ℕ
  pub size : ℕ

-- `GetValue` of a value; the index -1 of a default `SlotReference` does not occur.
unfoldable pub get_value : ValueExpr → TupleRow → Option Value
get_value (slot_reference tuple_index slot_index) row = do
  tuple ← get_tuple tuple_index row
  slot ← get_slot slot_index tuple
  some (record { block = tuple; offset = slot.offset; size = slot.length })
get_value (varchar_const_value v) row = some (record { block = v; offset = 0; size = length v })
get_value (integer_const_value v) row = some (record { block = encode 8 v; offset = 0; size = 8 })
get_value (float_const_value v) row = some (record { block = encode 8 v; offset = 0; size = 8 })

-- `std::string(str, len)`
unfoldable pub string_of : Value → Option Bytes
string_of v = read v.offset v.size v.block

-- `*(uint64_t*)` of the pointer: eight bytes, whatever the length says
unfoldable pub word_of : Value → Option ℕ
word_of v = do bytes ← read v.offset 8 v.block; some (decode bytes)

-- `<` on `int64_t`, from the bit patterns
unfoldable pub int64_lt : ℕ → ℕ → Bool
int64_lt a b =
    let a_nonneg = ltb a (2 ^ 63) in
    let b_nonneg = ltb b (2 ^ 63) in if a_nonneg then b_nonneg && ltb a b else b_nonneg || ltb a b

-- The `switch` on the operator; the five tests are those of the type compared.
unfoldable pub switch_compare : OperatorType → Bool → Bool → Bool → Bool → Bool → Bool
switch_compare equal eq lt gt le ge = eq
switch_compare less eq lt gt le ge = lt
switch_compare greater eq lt gt le ge = gt
switch_compare less_or_equal eq lt gt le ge = le
switch_compare greater_or_equal eq lt gt le ge = ge
switch_compare _ eq lt gt le ge = false

unfoldable pub compare_strings : OperatorType → Bytes → Bytes → Bool
unfolding switch_compare
compare_strings op x y =
    switch_compare op (bytes_eq x y) (bytes_lt x y) (bytes_lt y x) (not (bytes_lt y x))
      (not (bytes_lt x y))

unfoldable pub compare_integers : OperatorType → ℕ → ℕ → Bool
unfolding switch_compare int64_lt
compare_integers op x y =
    switch_compare op (x == y) (int64_lt x y) (int64_lt y x) (not (int64_lt y x))
      (not (int64_lt x y))

-- The comparisons of the hardware on two doubles, given by their bit patterns.
pub record Doubles : Type 0 where
  pub eq : ℕ → ℕ → Bool
  pub lt : ℕ → ℕ → Bool
  pub le : ℕ → ℕ → Bool

unfoldable pub compare_doubles : Doubles → OperatorType → ℕ → ℕ → Bool
unfolding switch_compare
compare_doubles d op x y = switch_compare op (d.eq x y) (d.lt x y) (d.lt y x) (d.le x y) (d.le y x)

-- `VarcharCompare::GetValue`, on the two rows of the operands
unfoldable pub varchar_compare_value :
    OperatorType → ValueExpr → ValueExpr → TupleRow → TupleRow → Option Bool
unfolding compare_strings
varchar_compare_value op left right row1 row2 = do
  v ← get_value left row1
  str_left ← string_of v
  w ← get_value right row2
  str_right ← string_of w
  some (compare_strings op str_left str_right)

-- `IntegerCompare::GetValue`
unfoldable pub integer_compare_value :
    OperatorType → ValueExpr → ValueExpr → TupleRow → TupleRow → Option Bool
unfolding compare_integers
integer_compare_value op left right row1 row2 = do
  v ← get_value left row1
  int_left ← word_of v
  w ← get_value right row2
  int_right ← word_of w
  some (compare_integers op int_left int_right)

-- `FloatCompare::GetValue`
unfoldable pub float_compare_value :
    Doubles → OperatorType → ValueExpr → ValueExpr → TupleRow → TupleRow → Option Bool
unfolding compare_doubles
float_compare_value d op left right row1 row2 = do
  v ← get_value left row1
  float_left ← word_of v
  w ← get_value right row2
  float_right ← word_of w
  some (compare_doubles d op float_left float_right)

-- `and`, `or`, `xor` of C++: the right operand of the first two is evaluated where it decides. Any
-- other operator is a failed `assert`.
unfoldable pub logic_value : OperatorType → Option Bool → Option Bool → Option Bool
logic_value op_and left right = do l ← left; if l then right else some false
logic_value op_or left right = do l ← left; if l then some true else right
logic_value op_xor left right = do l ← left; r ← right; some (if l then not r else r)
logic_value _ left right = none

-- `GetValue(row)` of a condition
unfoldable pub evaluate : Doubles → BooleanExpr → TupleRow → Option Bool
evaluate d (varchar_compare op l r) row = varchar_compare_value op l r row row
evaluate d (integer_compare op l r) row = integer_compare_value op l r row row
evaluate d (float_compare op l r) row = float_compare_value d op l r row row
evaluate d (logic_expr op l r) row = logic_value op (evaluate d l row) (evaluate d r row)

-- `GetValue(row1, row2)` of a condition: each operand of a logic operator sees one row.
unfoldable pub evaluate_pair : Doubles → BooleanExpr → TupleRow → TupleRow → Option Bool
unfolding evaluate
evaluate_pair d (varchar_compare op l r) row1 row2 = varchar_compare_value op l r row1 row2
evaluate_pair d (integer_compare op l r) row1 row2 = integer_compare_value op l r row1 row2
evaluate_pair d (float_compare op l r) row1 row2 = float_compare_value d op l r row1 row2
evaluate_pair d (logic_expr op l r) row1 row2 =
    logic_value op (evaluate d l row1) (evaluate d r row2)
