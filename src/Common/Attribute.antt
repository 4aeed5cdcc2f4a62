-- ===== src/Common/Attribute.antt =====
-- src/include/common/attribute.h and src/common/attribute.cpp: a column of a relation, and its row in
-- the system table of attributes.
pub mod Catalog
use dbms.Prelude.{
  ℕ, ◌+◌, ◌*◌, ◌%◌, ◌^◌, Option, none, some, List, [], ◌∷◌, Bool, false, Bytes, length,
}
use dbms.Common.Memory.{Allocator, ◌>>=◌}
use dbms.Common.Memory.Integers.{encode}
use dbms.Common.Memory.Writes.{write_all}
use dbms.Common.Tuple.{sizeof_slot, get_integer, get_value, get_slot, set_value, set_slot}
use dbms.Common.Define.{DataType, dt_invalid}

-- `attribute_id_`, which nothing reads, is left out.
pub record Attribute : Type 0 where
  pub name : Bytes
  pub attribute_index : ℕ
  pub id : ℕ
  pub relation_id : ℕ
  pub max_length : ℕ
  pub data_type : DataType
  pub is_null : Bool
  pub is_variable : Bool

-- the constructor without arguments
abbrev pub new_attribute : Attribute
new_attribute = record {
  name = [];
  attribute_index = 0;
  id = 0;
  relation_id = 0;
  max_length = 0;
  data_type = dt_invalid;
  is_null = false;
  is_variable = false;
}

-- The `memcpy` calls and slot assignments of `ToTuple`, in order. The first offset leaves room for
-- four slots; the rows have six.
unfoldable pub attribute_writes : Attribute → List (ℕ × Bytes)
attribute_writes a =
    let offset0 = sizeof_slot * 4 in
    let offset1 = offset0 + 8 in
    let offset2 = offset1 + 8 in
    let offset3 = offset2 + length a.name in
    let offset4 = offset3 + 8 in
    let offset5 = offset4 + 8 in
    set_value offset0 (encode 8 a.id)
    ∷ set_slot 0 offset0 8
    ∷ set_value offset1 (encode 8 a.relation_id)
    ∷ set_slot 1 offset1 8
    ∷ set_value offset2 a.name
    ∷ set_slot 2 offset2 (length a.name)
    ∷ set_value offset3 (encode 8 a.data_type)
    ∷ set_slot 3 offset3 8
    ∷ set_value offset4 (encode 8 a.max_length)
    ∷ set_slot 4 offset4 8
    ∷ set_value offset5 (encode 8 a.attribute_index)
    ∷ set_slot 5 offset5 8
    ∷ []

-- `ToTuple`: the block and the length in use. A name too long for the block is a write past its
-- end.
unfoldable pub to_tuple : Allocator → Attribute → Option (Bytes × ℕ)
unfolding attribute_writes
to_tuple m a = do
  tuple ← write_all (attribute_writes a) (m.malloc 1024)
  some (tuple, sizeof_slot * 4 + 8 + 8 + length a.name + 8 + 8 + 8)

-- `FromTuple`, which sets six fields of an attribute
unfoldable pub from_tuple : Attribute → Bytes → Option Attribute
from_tuple a tuple = do
  slot ← get_slot 0 tuple
  id ← get_integer slot.offset tuple
  slot ← get_slot 1 tuple
  relation_id ← get_integer slot.offset tuple
  slot ← get_slot 2 tuple
  name ← get_value slot.offset slot.length tuple
  slot ← get_slot 3 tuple
  data_type ← get_integer slot.offset tuple
  slot ← get_slot 4 tuple
  max_length ← get_integer slot.offset tuple
  slot ← get_slot 5 tuple
  attribute_index ← get_integer slot.offset tuple
  some (record a {
    id = id % 2 ^ 32;
    relation_id = relation_id % 2 ^ 32;
    name = name;
    data_type = data_type % 2 ^ 32;
    max_length = max_length % 2 ^ 32;
    attribute_index = attribute_index % 2 ^ 32;
  })
