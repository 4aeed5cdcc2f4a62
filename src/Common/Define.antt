-- ===== src/Common/Define.antt =====
-- src/include/common/define.h, src/common/define.cpp, data_type.h and state.h: the enumerations.
use dbms.Prelude.{ℕ, ◌≡◌, Bool, true, false, ◌&&◌, arith, ltb}

-- `OperatorType`, with the markers that delimit its groups
pub data OperatorType : Type 0 where
  invalid assign boolean_begin compare_begin equal less greater less_or_equal : OperatorType
  greater_or_equal compare_end logic_begin op_and op_or op_xor op_not logic_end : OperatorType
  boolean_end arithmetic_begin arithmetic_end : OperatorType

-- the number that C++ gives an enumerator
unfoldable pub operator_code : OperatorType → ℕ
operator_code invalid = 0
operator_code assign = 1
operator_code boolean_begin = 2
operator_code compare_begin = 3
operator_code equal = 4
operator_code less = 5
operator_code greater = 6
operator_code less_or_equal = 7
operator_code greater_or_equal = 8
operator_code compare_end = 9
operator_code logic_begin = 10
operator_code op_and = 11
operator_code op_or = 12
operator_code op_xor = 13
operator_code op_not = 14
operator_code logic_end = 15
operator_code boolean_end = 16
operator_code arithmetic_begin = 17
operator_code arithmetic_end = 18

unfoldable pub is_arithmetic_operator : OperatorType → Bool
unfolding operator_code
is_arithmetic_operator t =
    ltb (operator_code arithmetic_begin) (operator_code t)
    && ltb (operator_code t) (operator_code arithmetic_end)

unfoldable pub is_boolean_operator : OperatorType → Bool
unfolding operator_code
is_boolean_operator t =
    ltb (operator_code boolean_begin) (operator_code t)
    && ltb (operator_code t) (operator_code boolean_end)

unfoldable pub is_logic_operator : OperatorType → Bool
unfolding operator_code
is_logic_operator t =
    ltb (operator_code logic_begin) (operator_code t)
    && ltb (operator_code t) (operator_code logic_end)

unfoldable pub is_compare_operator : OperatorType → Bool
unfolding operator_code
is_compare_operator t =
    ltb (operator_code compare_begin) (operator_code t)
    && ltb (operator_code t) (operator_code compare_end)

-- `DataType` is its number, an object identifier of pg_type.h. A catalog row may hold any number.
abbrev pub DataType : Type 0
DataType = ℕ

abbrev pub dt_invalid : DataType
dt_invalid = 0

abbrev pub dt_integer : DataType
dt_integer = 20

abbrev pub dt_float : DataType
dt_float = 701

abbrev pub dt_date : DataType
dt_date = 1082

abbrev pub dt_varchar : DataType
dt_varchar = 1043

abbrev pub dt_boolean : DataType
dt_boolean = 1044

-- `State`
pub data State : Type 0 where
  ok eof open_file_error load_error parse_error build_error exec_error frontend_terminate : State
  relation_not_found file_not_find name_ambiguous attribute_not_found not_support : State
  insert_failed : State

-- Every operator is a comparison, a logic operator, or neither; the first two are what
-- `is_boolean_operator` accepts beside the markers between them.
pub is_compare-is_logic :
    (t : OperatorType)
    → (is_compare_operator t ≡ true → is_logic_operator t ≡ false)
      × (is_logic_operator t ≡ true → is_boolean_operator t ≡ true)
      × (is_compare_operator t ≡ true → is_boolean_operator t ≡ true)
      × (is_arithmetic_operator t ≡ false)
unfolding is_compare_operator is_logic_operator is_boolean_operator is_arithmetic_operator
is_compare-is_logic t = ground arith
