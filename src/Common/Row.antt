-- ===== src/Common/Row.antt =====
-- src/include/common/row_desc.h and tuple_row.h: the description of a result's columns, and a row of
-- shared tuples.
use dbms.Prelude.{
  ℕ, Option, none, some, List, [], ◌∷◌, ◌++◌, Bytes, length, set, get_elem?, drop, replicate, ltb,
  leb, if◌then◌else◌,
}
use dbms.Common.Define.{DataType}

pub record ItemSlot : Type 0 where
  pub nth_tuple : ℕ
  pub nth_item : ℕ

pub record ColumnDesc : Type 0 where
  pub column_name : Bytes
  pub data_type : DataType
  pub data_type_size : ℕ
  pub relation_id : ℕ
  pub attribute_id : ℕ
  pub item_slot : ItemSlot

-- `RowDesc`, of which only the list of columns is used
abbrev pub RowDesc : Type 0
RowDesc = List ColumnDesc

unfoldable pub push_column_desc : RowDesc → ColumnDesc → RowDesc
push_column_desc desc column = desc ++ column ∷ []

-- `TupleRow`: a null pointer is `none`.
abbrev pub TupleRow : Type 0
TupleRow = List (Option Bytes)

unfoldable pub new_row : ℕ → TupleRow
new_row n = replicate n none

-- `SetTuple`. An index out of range is undefined behaviour.
unfoldable pub set_tuple : ℕ → Bytes → TupleRow → Option TupleRow
set_tuple n t row = if ltb n (length row) then some (set row n (some t)) else none

-- `GetTuple`, and the pointer followed
unfoldable pub get_tuple : ℕ → TupleRow → Option Bytes
get_tuple n row = elim (get_elem? row n) [ none ↦ none | some t ↦ t ]

-- `CopyTo`: a row copies all its pointers, the null ones too, unless the other row is too short.
unfoldable pub copy_to : TupleRow → TupleRow → TupleRow
copy_to row dest = if leb (length row) (length dest) then row ++ drop (length row) dest else dest
