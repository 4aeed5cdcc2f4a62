-- ===== src/Storage.antt =====
-- src/storage/level_store.cpp, iterator_handler_impl.cpp and write_handler_impl.cpp: the catalog of
-- relations, kept in memory and in two databases of leveldb, and the handlers of the tables. A
-- pointer to a relation is its position in `all_relations_`.
pub mod Catalog
pub mod Creation
pub mod Handlers
pub mod Restart
pub mod Batches
pub mod Start
use dbms.Prelude.{
  ℕ, zero, suc, ◌+◌, ◌-◌, ◌^◌, Option, none, some, List, [], ◌∷◌, ◌++◌, Bool, true, false, Bytes,
  length, take, set, get_elem?, if◌then◌else◌, ◌==◌, ltb,
}
use dbms.Prelude.Maps.{StdMap, find, place, insert, erase, update, nat_key, bytes_key}
use dbms.Common.Memory.{Allocator, ◌>>=◌}
use dbms.Common.Define.{DataType, dt_integer, dt_float, dt_varchar, dt_date}
use dbms.Common.Attribute.{Attribute, new_attribute}
use dbms.Common.Attribute as Attributes
use dbms.Common.Relation.{Relation, new_relation, add_attribute}
use dbms.Common.Relation as Relations

pub record ColumnSchema : Type 0 where
  pub name : Bytes
  pub data_type : DataType
  pub length : ℕ
  pub is_null : Bool
  pub is_primary_key : Bool

pub record TableSchema : Type 0 where
  pub name : Bytes
  pub column_list : List ColumnSchema

-- The entries of a database of leveldb, in the order in which an iterator reaches them.
abbrev pub Database : Type 0
Database = List (Bytes × Bytes)

-- What `Put` of leveldb makes of the entries.
pub record Leveldb : Type 0 where
  pub put : Bytes → Bytes → Database → Database

pub record Store : Type 0 where
  pub name_rel_map : StdMap Bytes ℕ
  pub id_rel_map : StdMap ℕ ℕ
  pub all_relations : List Relation
  pub db_class : Database
  pub db_attribute : Database

-- `InsertRelation`: the relation is deleted where its name or identifier is taken.
unfoldable pub insert_relation : Relation → Store → Store × Bool
insert_relation r s = elim (find r.name s.name_rel_map) [
  | some i ↦ (s, false)
  | none ↦ elim (find r.relation_id s.id_rel_map) [
    | some i ↦ (s, false)
    | none ↦
        let i = length s.all_relations in
        (
          record s {
            name_rel_map = insert r.name i s.name_rel_map;
            id_rel_map = insert r.relation_id i s.id_rel_map;
            all_relations = s.all_relations ++ r ∷ [];
          },
          true,
        )
  ]
]

-- `GetRelation`, and the pointer followed
unfoldable pub get_relation : Bytes → Store → Option Relation
get_relation name s = do i ← find name s.name_rel_map; get_elem? s.all_relations i

-- `GenRelationID`, on the numbers that `rand` will return; none where they do not suffice
unfoldable pub gen_relation_id : List ℕ → StdMap ℕ ℕ → Option (ℕ × List ℕ)
gen_relation_id [] ids = none
gen_relation_id (id ∷ rand) ids = elim (find id ids) [
  | none ↦ some (id, rand)
  | some i ↦ gen_relation_id rand ids
]

-- the `switch` of `CreateRelation` on a column's type: size and variable; others fail an `assert`
unfoldable pub size_of_column : ColumnSchema → Option (ℕ × Bool)
size_of_column c =
    if c.data_type == dt_integer
    then some (8, false)
    else if c.data_type == dt_float
    then some (8, false)
    else if c.data_type == dt_varchar
    then some (c.length, true)
    else if c.data_type == dt_date
    then some (8, false)
    else none

unfoldable pub attribute_of_column : ColumnSchema → ℕ → Option Attribute
unfolding size_of_column
attribute_of_column c i = do
  size ← size_of_column c
  some (record new_attribute {
    name = c.name;
    id = i;
    data_type = c.data_type;
    is_null = c.is_null;
    max_length = size.0;
    is_variable = size.1;
  })

-- the loop of `CreateRelation` over the columns
unfoldable pub add_columns : ℕ → List ColumnSchema → Relation → Option Relation
unfolding attribute_of_column add_attribute
add_columns i [] r = some r
add_columns i (c ∷ columns) r = do
  a ← attribute_of_column c i
  add_columns (suc i) columns (add_attribute r a true).0

-- the loop of `WriteRelMeta` over the attributes; `keys` are the bytes read through the slices that
-- were made of `GenUUID`
unfoldable pub write_attributes :
    Allocator → Leveldb → (ℕ → Bytes) → ℕ → List Attribute → Database → Option Database
write_attributes m l keys i [] db = some db
write_attributes m l keys i (a ∷ attributes) db = do
  t ← Attributes.to_tuple m a
  write_attributes m l keys (suc i) attributes (l.put (keys i) (take t.1 t.0) db)

-- `WriteRelMeta`. The slices of the keys refer to strings that are gone when they are used; the
-- keys are a parameter here, as if the strings were still there.
unfoldable pub write_rel_meta : Allocator → Leveldb → (ℕ → Bytes) → Relation → Store → Option Store
unfolding write_attributes
write_rel_meta m l keys r s = do
  t ← Relations.to_tuple m r
  db ← write_attributes m l keys 1 r.attributes s.db_attribute
  some (record s { db_class = l.put (keys 0) (take t.1 t.0) s.db_class; db_attribute = db })

-- `CreateRelation`, which returns true whatever `InsertRelation` does
unfoldable pub create_relation :
    Allocator → Leveldb → (ℕ → Bytes) → List ℕ → TableSchema → Store → Option (Store × Bool)
unfolding gen_relation_id add_columns write_rel_meta insert_relation
create_relation m l keys rand schema s = do
  id ← gen_relation_id rand s.id_rel_map
  rel ←
      add_columns 0 schema.column_list
        (record new_relation { name = schema.name; relation_id = id.0 })
  s' ← write_rel_meta m l keys rel s
  some ((insert_relation rel s').0, true)

-- the two loops of `ReadSystemTable`
unfoldable pub read_relations : Database → Store → Option Store
unfolding insert_relation
read_relations [] s = some s
read_relations ((key, tuple) ∷ db) s = do
  r ← Relations.from_tuple new_relation tuple
  read_relations db (insert_relation r s).0

unfoldable pub read_attributes : Database → Store → Option Store
unfolding add_attribute
read_attributes [] s = some s
read_attributes ((key, tuple) ∷ db) s = do
  a ← Attributes.from_tuple new_attribute tuple
  i ← find a.relation_id s.id_rel_map
  rel ← get_elem? s.all_relations i
  read_attributes db
      (record s { all_relations = set s.all_relations i (add_attribute rel a false).0 })

unfoldable pub read_system_table : Store → Option Store
unfolding read_relations read_attributes
read_system_table s = do s' ← read_relations s.db_class s; read_attributes s'.db_attribute s'

-- `write_handler_map_` or `iterator_handler_map_`, which have the same functions: for each table
-- the number of references to its handler (`IOHandler`).
abbrev pub HandlerMap : Type 0
HandlerMap = StdMap ℕ ℕ

-- `NewIterator` and `NewWriteHandler`: the handler of a table is shared, and counted.
unfoldable pub new_handler : ℕ → HandlerMap → HandlerMap
new_handler relid map = elim (find relid map) [
  | none ↦ insert relid 1 map
  | some n ↦ update relid suc map
]

-- `DeleteIOObject`: the handler is deleted with its last user; none where it was deleted before. A
-- count of 0, which no handler that is kept has, would become -1 in the code: that is not modelled.
unfoldable pub delete_io_object : ℕ → HandlerMap → Option HandlerMap
delete_io_object relid map = do
  n ← find relid map
  if n - 1 == 0 then some (erase relid map) else some (update relid (λ r. r - 1) map)
