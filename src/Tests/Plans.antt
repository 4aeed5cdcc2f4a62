-- ===== src/Tests/Plans.antt =====
-- Queries over tables of one integer column.
use dbms.Prelude.{
  true, false, ℕ, zero, suc, List, length, ◌≡◌, refl, arith, some, [], ◌∷◌, Bytes, ltb, leb, ◌==◌,
  if◌then◌else◌,
}
use dbms.Common.Memory.{read, write, ◌>>=◌}
use dbms.Common.Memory.Writes.{write_all}
use dbms.Common.Memory.Integers.{encode, decode}
use dbms.Common.Define.{ok, equal, less, greater}
use dbms.Common.Tuple.{get_slot, slot_bytes}
use dbms.Common.Row.{new_row, get_tuple}
use dbms.Executor.Expression.{
  BooleanExpr, slot_reference, integer_const_value, integer_compare, integer_compare_value, Doubles,
  evaluate, get_value, word_of, string_of, compare_integers, int64_lt, switch_compare,
}
use dbms.Common.Define.{equal, less, greater, less_or_equal, greater_or_equal}
use dbms.Executor.Expression.{ValueExpr, word_of, integer_compare_value}
use dbms.Executor.Expression.Order.{integer_compare_value-biased}
use dbms.Executor.Projection.{projected, values_of, total}
use dbms.Executor.Projection.Columns.{projected-column}
use dbms.Executor.Plan.{
  seq_scan, select, project, nested_loop_join, Cursor, Cursors, exec_select, fault,
}
use dbms.Executor.Plan.Fuel.{Gives, Settles}
use dbms.Executor.Plan.Queries.{select_from_table, select_from_join}
use dbms.Executor.Plan.Faults.{select_from_empty_join}
use dbms.Tests.{zeros}

abbrev doubles : Doubles
doubles = record { eq = ◌==◌; lt = ltb; le = leb }

-- a row of one integer, below 256
abbrev row : ℕ → Bytes
row v = 4 ∷ 0 ∷ 8 ∷ 0 ∷ v ∷ 0 ∷ 0 ∷ 0 ∷ 0 ∷ 0 ∷ 0 ∷ 0 ∷ []

-- the tuple at a place, and an empty one behind the end
abbrev nth : List Bytes → ℕ → Bytes
nth [] p = []
nth (t ∷ ts) zero = t
nth (t ∷ ts) (suc p) = nth ts p

-- an iterator over a list, whose state is a place of it, behind its end
abbrev at_end : List Bytes → Cursor
at_end ts = record {
  iterator = record {
    valid = λ p. ltb p (length ts);
    value = nth ts;
    next = λ p. suc p;
    seek_to_first = λ p. 0;
  };
  position = length ts;
}

-- table 3 has 5 and 6, table 4 has 6, and the others are empty
abbrev tables : Cursors
tables handler =
    if handler == 3
    then at_end (row 5 ∷ row 6 ∷ [])
    else if handler == 4
    then at_end (row 6 ∷ [])
    else at_end []

abbrev above_five : BooleanExpr
above_five = integer_compare greater (slot_reference 0 0) (integer_const_value 5)

abbrev same : BooleanExpr
same = integer_compare equal (slot_reference 0 0) (slot_reference 1 0)

select_from_table_example :
    Gives
      (λ n.
        exec_select zeros doubles n
          (project (select (seq_scan 3 0) above_five) (slot_reference 0 0 ∷ []) (new_row 1))
          tables)
      ((some (row 6) ∷ []) ∷ [], ok)
unfolding evaluate integer_compare_value get_value word_of compare_integers int64_lt switch_compare
    get_tuple get_slot new_row read encode decode projected string_of write_all write slot_bytes
select_from_table_example =
    select_from_table zeros doubles 3 above_five (slot_reference 0 0 ∷ []) tables
      (row 5 ∷ row 6 ∷ []) ((some (row 6) ∷ []) ∷ []) (row 6 ∷ [])
      (λ p. (refl, refl, (refl, refl, refl))) refl refl

select_from_join_example :
    Gives
      (λ n.
        exec_select zeros doubles n
          (project
            (select
              (nested_loop_join (seq_scan 3 0) (seq_scan 4 1) same (new_row 2) ok ok)
              above_five)
            (slot_reference 1 0 ∷ [])
            (new_row 2))
          tables)
      ((some (row 6) ∷ []) ∷ [], ok)
unfolding evaluate integer_compare_value get_value word_of compare_integers int64_lt switch_compare
    get_tuple get_slot new_row read encode decode projected string_of write_all write slot_bytes
select_from_join_example =
    select_from_join zeros doubles 3 4 same above_five (slot_reference 1 0 ∷ []) tables (row 5)
      (row 6 ∷ []) (row 6 ∷ []) ((some (row 6) ∷ some (row 6) ∷ []) ∷ [])
      ((some (row 6) ∷ some (row 6) ∷ []) ∷ []) (row 6 ∷ []) (λ e. absurd (omega arith))
      (λ p. (refl, refl, (refl, refl, refl))) (λ p. (refl, refl, refl)) refl refl refl

select_from_empty_join_example :
    Settles
      (λ n.
        exec_select zeros doubles n
          (project
            (nested_loop_join (seq_scan 2 0) (seq_scan 4 1) same (new_row 2) ok ok)
            (slot_reference 1 0 ∷ [])
            (new_row 2))
          tables)
      fault
unfolding evaluate integer_compare_value get_value get_tuple
select_from_empty_join_example =
    select_from_empty_join zeros doubles 2 4 same (slot_reference 1 0 ∷ []) tables (row 6) []
      (λ e. absurd (omega arith)) (λ p. refl) (λ p. (refl, refl, refl)) refl

abbrev minus_one : ValueExpr
minus_one = integer_const_value 18446744073709551615

abbrev one : ValueExpr
one = integer_const_value 1

-- -1 and 1
integer_compare_value-biased_example :
    (integer_compare_value equal minus_one one [] [] ≡ some false)
    × (integer_compare_value less minus_one one [] [] ≡ some true)
    × (integer_compare_value greater minus_one one [] [] ≡ some false)
    × (integer_compare_value less_or_equal minus_one one [] [] ≡ some true)
    × (integer_compare_value greater_or_equal minus_one one [] [] ≡ some false)
unfolding get_value word_of read encode decode
integer_compare_value-biased_example =
    integer_compare_value-biased minus_one one [] [] 18446744073709551615 1 refl refl (omega arith)
      (omega arith)

projected-column_example :
    (tuple : Bytes) × (projected zeros
        (slot_reference 0 0 ∷ integer_const_value 7 ∷ [])
        (some (row 5) ∷ [])
      ≡ some tuple)
    × (get_value (slot_reference 0 1) (some tuple ∷ []) >>= string_of ≡ some (encode 8 7))
unfolding values_of total get_value get_tuple get_slot read string_of encode decode
projected-column_example =
    projected-column zeros (slot_reference 0 0 ∷ integer_const_value 7 ∷ []) (some (row 5) ∷ [])
      (encode 8 5 ∷ encode 8 7 ∷ []) 1 (encode 8 7) refl refl (omega arith)
