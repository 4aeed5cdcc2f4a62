-- ===== src/Common/Relation.antt =====
-- src/include/common/relation.h and src/common/relation.cpp: a relation and its row in the system
-- table of relations. The page identifiers, which only the JSON form reads, are left out.
pub mod Catalog
pub mod Loading
use dbms.Prelude.{
  ℕ, zero, suc, ◌+◌, ◌-◌, ◌*◌, ◌%◌, ◌^◌, Option, none, some, List, [], ◌∷◌, ◌++◌, Bool, true, false,
  Bytes, length, ltb, bytes_eq, if◌then◌else◌, get_elem?, map,
}
use dbms.Common.Memory.{Allocator, ◌>>=◌}
use dbms.Common.Memory.Integers.{encode}
use dbms.Common.Memory.Writes.{write_all}
use dbms.Common.Tuple.{sizeof_slot, get_integer, get_value, get_slot, set_value, set_slot}
use dbms.Common.Attribute.{Attribute}
use dbms.Common.Row.{ColumnDesc, RowDesc}

pub record Relation : Type 0 where
  pub name : Bytes
  pub relation_id : ℕ
  pub attributes : List Attribute

-- the constructor
abbrev pub new_relation : Relation
new_relation = record { name = []; relation_id = 0; attributes = [] }

-- `GetAttributeIndex`: the first position of a name; -1 is `none`
index_from : ℕ → List Attribute → Bytes → Option ℕ
index_from i [] name = none
index_from i (a ∷ attributes) name =
    let rest = index_from (suc i) attributes name in if bytes_eq a.name name then some i else rest

unfoldable pub get_attribute_index : Relation → Bytes → Option ℕ
unfolding index_from
get_attribute_index r name = index_from 0 r.attributes name

-- `attributes_.push_back`, and the index set on the element that is now the last
append_attribute : List Attribute → Attribute → List Attribute
append_attribute attributes a = attributes ++ record a { attribute_index = length attributes } ∷ []

-- the loop that inserts before the first element with a larger index
unfoldable pub insert_before : Attribute → List Attribute → List Attribute
insert_before a [] = []
insert_before a (x ∷ attributes) =
    if ltb a.attribute_index x.attribute_index
    then a ∷ x ∷ attributes
    else x ∷ insert_before a attributes

insert_attribute : Attribute → List Attribute → List Attribute
unfolding insert_before
insert_attribute a [] = a ∷ []
insert_attribute a (x ∷ attributes) = insert_before a (x ∷ attributes)

-- `AddAttribute`, with the relation and the caller's attribute, which it changes
unfoldable pub add_attribute : Relation → Attribute → Bool → Relation × Attribute
unfolding append_attribute insert_attribute
add_attribute r attribute append =
    let a = record attribute { relation_id = r.relation_id } in
    if append
    then (record r { attributes = append_attribute r.attributes a }, a)
    else (record r { attributes = insert_attribute a r.attributes }, a)

-- The `memcpy` calls and slot assignments of `ToTuple`, in order.
unfoldable pub relation_writes : Relation → List (ℕ × Bytes)
relation_writes r =
    let offset0 = sizeof_slot * 2 in
    let offset1 = offset0 + 8 in
    set_value offset0 (encode 8 r.relation_id)
    ∷ set_slot 0 offset0 8
    ∷ set_value offset1 r.name
    ∷ set_slot 1 offset1 (length r.name)
    ∷ []

-- `ToTuple`: the block and the length in use
unfoldable pub to_tuple : Allocator → Relation → Option (Bytes × ℕ)
unfolding relation_writes
to_tuple m r = do
  tuple ← write_all (relation_writes r) (m.malloc 512)
  some (tuple, sizeof_slot * 2 + 8 + length r.name)

-- `FromTuple`
unfoldable pub from_tuple : Relation → Bytes → Option Relation
from_tuple r tuple = do
  slot ← get_slot 0 tuple
  relation_id ← get_integer slot.offset tuple
  slot ← get_slot 1 tuple
  name ← get_value slot.offset slot.length tuple
  some (record r { relation_id = relation_id % 2 ^ 32; name = name })

describe_from : ℕ → ℕ → List Attribute → RowDesc
describe_from unset i [] = []
describe_from unset i (a ∷ attributes) =
    record {
      column_name = a.name;
      data_type = a.data_type;
      data_type_size = a.max_length % 2 ^ 16;
      relation_id = unset;
      attribute_id = a.id;
      item_slot = record { nth_tuple = 0; nth_item = i };
    }
    ∷ describe_from unset (suc i) attributes

-- `ToDesc`. The size is a signed sixteen-bit number, here its bit pattern. The relation's
-- identifier is left uninitialised: what it holds is `unset`.
unfoldable pub to_desc : ℕ → Relation → RowDesc
unfolding describe_from
to_desc unset r = describe_from unset 0 r.attributes
