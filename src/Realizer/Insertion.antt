-- ===== src/Realizer/Insertion.antt =====
-- `QueryRealizer::ExecInsert` of src/realizer/query_realizer.cpp: the row that an insertion puts into
-- its table. The statement is that of src/include/parser/insert_stmt.h.
pub mod Slots
pub mod Commands
use dbms.Prelude.{
  ℕ, zero, suc, ◌+◌, ◌*◌, ◌%◌, ◌^◌, Option, none, some, List, [], ◌∷◌, Bytes, length, ◌==◌,
  if◌then◌else◌,
}
use dbms.Prelude.Maps.{StdMap, find, insert, bytes_key}
use dbms.Common.Memory.{Allocator, write, read, ◌>>=◌}
use dbms.Common.Memory.Integers.{encode}
use dbms.Common.Define.{DataType, dt_integer, dt_float, dt_varchar}
use dbms.Common.Tuple.{sizeof_slot, slot_bytes}
use dbms.Common.Attribute.{Attribute}
use dbms.Common.Relation.{Relation}
use dbms.Realizer.{Constant, integer, varchar}

pub record InsertStmt : Type 0 where
  pub table_name : Bytes
  pub opt_column_names : List Bytes
  pub insert_values : List Constant

-- A string has the integer 0, and an integer the empty string.
abbrev pub get_integer_value : Constant → ℕ
get_integer_value (integer n) = n
get_integer_value (varchar s) = 0

abbrev pub get_string_value : Constant → Bytes
get_string_value (integer n) = []
get_string_value (varchar s) = s

-- `name2val`, from the columns that the statement names; none where it names fewer than it has
-- values
unfoldable pub pair_up :
    List Bytes → List Constant → StdMap Bytes Constant → Option (StdMap Bytes Constant)
pair_up names [] values = some values
pair_up [] (c ∷ cs) values = none
pair_up (name ∷ names) (c ∷ cs) values = pair_up names cs (insert name c values)

-- A statement without values passes the assertion only for a relation without attributes.
unfoldable pub name2val : Relation → InsertStmt → Option (StdMap Bytes Constant)
unfolding pair_up
name2val r stmt = elim stmt.insert_values [
  | [] ↦ if length r.attributes == 0 then some [] else none
  | c ∷ cs ↦ pair_up stmt.opt_column_names (c ∷ cs) []
]

-- the bytes written for a column, where its type is one of the three that have some
abbrev pub value_bytes : DataType → ℕ → Bytes → Option Bytes
value_bytes type n s =
    if type == dt_integer
    then some (encode 8 n)
    else if type == dt_float
    then some (encode 8 0)
    else if type == dt_varchar
    then some s
    else none

abbrev pub store : Option Bytes → ℕ → Bytes → Option Bytes
store none off block = some block
store (some v) off block = write off v block

abbrev pub length_of : Option Bytes → ℕ
length_of none = 0
length_of (some v) = length v

-- The loop over the attributes, on the block and the offset: only a column without a value has its
-- slot set and moves the offset.
unfoldable pub insert_columns :
    StdMap Bytes Constant → ℕ → ℕ → List Attribute → Bytes → Option (Bytes × ℕ)
unfolding find write
insert_columns values i off [] block = some (block, off)
insert_columns values i off (a ∷ attributes) block = elim (find a.name values) [
  | some c ↦ do
    block ← store (value_bytes a.data_type (get_integer_value c) (get_string_value c)) off block
    insert_columns values (suc i) off attributes block
  | none ↦ do
    let v = value_bytes a.data_type 0 []
    block ← store v off block
    block ← write (sizeof_slot * i) (slot_bytes off (length_of v)) block
    insert_columns values (suc i) ((off + length_of v) % 2 ^ 32) attributes block
]

-- From the block to what `InsertValue` puts: as many bytes of it as the last offset says.
unfoldable pub inserted_tuple : Allocator → Relation → InsertStmt → Option Bytes
unfolding name2val insert_columns
inserted_tuple m r stmt = do
  values ← name2val r stmt
  tuple ←
      insert_columns values 0 ((sizeof_slot * length r.attributes) % 2 ^ 32) r.attributes
        (m.malloc 8192)
  read 0 tuple.1 tuple.0
