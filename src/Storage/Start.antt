-- ===== src/Storage/Start.antt =====
-- `Start`, `InitDB`, `CreateSystemTable` and `Stop` of src/storage/level_store.cpp: the two databases of
-- the catalog are opened, and made before where there are none.
use dbms.Prelude.{
  ℕ, ◌+◌, Option, none, some, [], Bool, true, false, not, ◌&&◌, ◌||◌, Bytes, codes, if◌then◌else◌,
}
use dbms.Common.Memory.{Allocator, ◌>>=◌}
use dbms.Common.Define.{DataType, dt_integer, dt_varchar}
use dbms.Common.Attribute.{Attribute, new_attribute}
use dbms.Common.Relation.{Relation, new_relation, add_attribute}
use dbms.Storage.{Store, Database, Leveldb, HandlerMap, write_rel_meta, read_system_table}

abbrev sys_relation : ℕ
sys_relation = 0

abbrev sys_attribute : ℕ
sys_attribute = 1

-- the assignments to `attribute` before it is added; it is one variable for all columns
abbrev describe : Bytes → ℕ → DataType → ℕ → Attribute → Attribute
describe name id data_type max_length a = record a {
  name = name;
  id = id;
  data_type = data_type;
  is_null = false;
  max_length = max_length;
  is_variable = false;
}

-- `AddAttribute` of the relation and the variable
abbrev add_described : Bytes → ℕ → DataType → ℕ → Relation × Attribute → Relation × Attribute
add_described name id data_type max_length (r, a) =
    add_attribute r (describe name id data_type max_length a) true

abbrev begin : Bytes → ℕ → Attribute → Relation × Attribute
begin name id a = (record new_relation { name = name; relation_id = id }, a)

-- the two relations of `CreateSystemTable`
unfoldable pub rel_class : Relation × Attribute
unfolding add_attribute
rel_class = add_described (codes "name") 1 dt_varchar 512 (
    add_described (codes "id") 0 dt_integer 8
      (begin (codes "sys_class") sys_relation new_attribute))

unfoldable pub rel_attr : Relation × Attribute
unfolding rel_class add_attribute
rel_attr = add_described (codes "size") 4 dt_integer 8 (
    add_described (codes "type") 3 dt_integer 8 (
      add_described (codes "name") 2 dt_varchar 512 (
        add_described (codes "rel_id") 1 dt_integer 8 (
          add_described (codes "id") 0 dt_integer 8
            (begin (codes "sys_attribute") sys_attribute rel_class.1)))))

-- `CreateSystemTable`. The first relation takes three keys, one for its row and two for its
-- columns.
unfoldable pub create_system_table : Allocator → Leveldb → (ℕ → Bytes) → Store → Option Store
unfolding rel_class rel_attr write_rel_meta
create_system_table m l keys s = do
  s' ← write_rel_meta m l keys rel_class.0 s
  write_rel_meta m l (λ i. keys (3 + i)) rel_attr.0 s'

-- What the file system and leveldb answer, in the order of the calls, and the databases there are.
pub record Disk : Type 0 where
  pub class_exists : Bool
  pub attribute_exists : Bool
  pub mkdir_succeeds : Bool
  pub class_created : Bool
  pub attribute_created : Bool
  pub class_opened : Bool
  pub attribute_opened : Bool
  pub db_class : Database
  pub db_attribute : Database

-- the store of a server that has opened its two databases
abbrev pub opened : Database → Database → Store
opened relations attributes = record {
  name_rel_map = [];
  id_rel_map = [];
  all_relations = [];
  db_class = relations;
  db_attribute = attributes;
}

-- `InitDB`: the databases it leaves, or nothing where it returns false
unfoldable pub init_db :
    Allocator → Leveldb → (ℕ → Bytes) → Disk → Option (Option (Database × Database))
unfolding create_system_table
init_db m l keys d =
    if d.mkdir_succeeds && (d.class_created && d.attribute_created)
    then (create_system_table m l keys (opened [] []) >>= λ s.
        some (some (s.db_class, s.db_attribute)))
    else some none

-- `exit(1)`, false and true
pub data Started : Type 0 where
  exited failed : Started
  started : Store → Started

unfoldable pub open_databases : Disk → Option (Database × Database) → Option Started
open_databases d none = some exited
open_databases d (some (relations, attributes)) =
    if d.class_opened && d.attribute_opened
    then (read_system_table (opened relations attributes) >>= λ s. some (started s))
    else some failed

-- `Start`
unfoldable pub start : Allocator → Leveldb → (ℕ → Bytes) → Disk → Option Started
unfolding init_db open_databases
start m l keys d = do
  databases ←
      if not d.class_exists || not d.attribute_exists
      then init_db m l keys d
      else some (some (d.db_class, d.db_attribute))
  open_databases d databases

-- `Stop`, on the two maps of handlers: all are deleted, whatever their references.
unfoldable pub stop : HandlerMap × HandlerMap → HandlerMap × HandlerMap
stop (write_handler_map, iterator_handler_map) = ([], [])
