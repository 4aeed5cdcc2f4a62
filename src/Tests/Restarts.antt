-- ===== src/Tests/Restarts.antt =====
-- A server that starts on the databases of an earlier one.
use dbms.Prelude.{
  ◌+◌, none, List, arith, ℕ, ◌≡◌, refl, arith, some, [], ◌∷◌, ◌++◌, Bytes, codes, replicate, inl,
  bytes_eq,
}
use dbms.Prelude.Maps.{nat_key, bytes_key, find, insert}
use dbms.Common.Memory.{write}
use dbms.Common.Memory.Writes.{write_all}
use dbms.Common.Memory.Integers.{encode}
use dbms.Common.Tuple.{slot_bytes}
use dbms.Common.Attribute.{Attribute, attribute_writes}
use dbms.Common.Attribute as Attributes
use dbms.Common.Relation.{Relation, relation_writes}
use dbms.Common.Relation as Relations
use dbms.Storage.{
  Store, Database, get_relation, read_system_table, insert_relation, read_relations,
  read_attributes,
}
use dbms.Common.Tuple.{get_slot, get_integer, get_value}
use dbms.Common.Memory.{read}
use dbms.Common.Memory.Integers.{decode}
use dbms.Storage.Catalog.{IsConsistent}
use dbms.Storage.Start.{opened, start, started, rel_class, rel_attr}
use dbms.Storage.Restart.{bare}
use dbms.Storage.Restart.Attributes.{loaded}
use dbms.Storage.Restart.Fresh.{blank, system_columns, start-Fresh}
use dbms.Storage.Restart.Whole.{listed, read_system_table-Reloads}
use dbms.Storage.{Leveldb, write_rel_meta}
use dbms.Storage.Restart.Written.{AreUnique, Inserted, InsertedAll, IsReady}
use dbms.Storage.Restart.Durable.{IsReadable, Reloads, write_rel_meta-Reloads}
use dbms.Common.Attribute.{Attribute}
use dbms.Common.Attribute.Catalog as AttributeCatalog
use dbms.Tests.{zeros, users, id_column}

-- the row of a relation with this name, of five bytes, and this identifier
abbrev class_row : Bytes → ℕ → Bytes
class_row name id = 8 ∷ 0 ∷ 8 ∷ 0 ∷ 16 ∷ 0 ∷ 5 ∷ 0 ∷ id ∷ replicate 7 0 ++ name

abbrev id_row : Bytes
id_row =
    16
    ∷ 0
    ∷ 8
    ∷ 0
    ∷ 24
    ∷ 0
    ∷ 8
    ∷ 0
    ∷ 32
    ∷ 0
    ∷ 2
    ∷ 0
    ∷ 34
    ∷ 0
    ∷ 8
    ∷ 0
    ∷ 42
    ∷ 0
    ∷ 8
    ∷ 0
    ∷ 50
    ∷ 0
    ∷ 8
    ∷ 0
    ∷ 7
    ∷ (replicate 7 0 ++ (105 ∷ 100 ∷ 20 ∷ (replicate 7 0 ++ (8 ∷ (replicate 15 0)))))

abbrev roles : Relation
roles = record users { name = codes "roles"; relation_id = 9 }

abbrev classes : Database
classes = (codes "k", class_row (codes "users") 7) ∷ (codes "l", class_row (codes "roles") 9) ∷ []

abbrev columns : Database
columns = (codes "m", id_row) ∷ []

id_column-IsStorable : AttributeCatalog.IsStorable id_column
id_column-IsStorable = record {
  id_fits = omega arith;
  relation_id_fits = omega arith;
  max_length_fits = omega arith;
  data_type_fits = omega arith;
  attribute_index_fits = omega arith;
  name_fits = omega arith;
}

read_system_table-Reloads_example :
    (s : Store) × (read_system_table (opened classes columns) ≡ some s)
    × IsConsistent s
    × ((name : Bytes) → get_relation name s ≡ listed (id_column ∷ []) name (users ∷ roles ∷ []))
unfolding Relations.to_tuple Attributes.to_tuple relation_writes attribute_writes write_all encode
    slot_bytes write bytes_eq
read_system_table-Reloads_example =
    read_system_table-Reloads zeros classes columns (users ∷ roles ∷ []) (id_column ∷ [])
      (
        (record { relation_id_fits = omega arith; name_fits = omega arith }, refl),
        ((record { relation_id_fits = omega arith; name_fits = omega arith }, refl), tt),
      )
      ((id_column-IsStorable, refl), tt) (((refl, refl), tt), (tt, tt)) (inl refl, tt)

-- the rows of two relations with one name, of which the one that is read last has a column
abbrev twice : Database
twice = (codes "k", class_row (codes "users") 9) ∷ (codes "l", class_row (codes "users") 7) ∷ []

-- the row of the column has no relation then
twice-unreadable : read_system_table (opened twice columns) ≡ none
unfolding read_system_table read_relations read_attributes Relations.from_tuple
    Attributes.from_tuple insert_relation find bytes_eq get_slot get_integer get_value read decode
    insert
twice-unreadable = refl

-- a database that puts each new entry first
abbrev putting : Leveldb
putting = record { put = λ key value db. (key, value) ∷ db }

abbrev uuids : ℕ → Bytes
uuids i = 117 ∷ i ∷ []

uuids-AreUnique : AreUnique uuids
unfolding bytes_eq
uuids-AreUnique i j = ground arith

abbrev item_column : Attribute
item_column = record id_column { relation_id = 11 }

abbrev items : Relation
items = record users { name = codes "items"; relation_id = 11; attributes = item_column ∷ [] }

item_column-IsStorable : AttributeCatalog.IsStorable item_column
item_column-IsStorable = record {
  id_fits = omega arith;
  relation_id_fits = omega arith;
  max_length_fits = omega arith;
  data_type_fits = omega arith;
  attribute_index_fits = omega arith;
  name_fits = omega arith;
}

abbrev held : Store
held = opened classes []

held-IsReady : IsReady zeros uuids held (users ∷ roles ∷ []) []
unfolding Relations.to_tuple relation_writes write_all encode slot_bytes write bytes_eq
held-IsReady = record {
  class_new = λ j le. refl;
  attribute_new = λ j le. refl;
  relations = (
    (record { relation_id_fits = omega arith; name_fits = omega arith }, refl),
    ((record { relation_id_fits = omega arith; name_fits = omega arith }, refl), tt),
  );
  attributes = tt;
}

write_rel_meta-Reloads_example :
    (s' : Store) × (rs' : List Relation) × (rows' : List Attribute) × (write_rel_meta zeros putting
        uuids items held
      ≡ some s')
    × Inserted items (users ∷ roles ∷ []) rs'
    × InsertedAll items.attributes [] rows'
    × IsReady zeros (λ i. uuids (2 + i)) s' rs' rows'
    × IsReadable rs' rows'
    × Reloads s' rs' rows'
    × (listed rows' (codes "items") rs' ≡ some (loaded rows' (bare items)))
unfolding bytes_eq
write_rel_meta-Reloads_example =
    write_rel_meta-Reloads zeros putting uuids items held (users ∷ roles ∷ []) []
      (λ key value db new. ([], db, refl, refl)) uuids-AreUnique
      (record { relation_id_fits = omega arith; name_fits = omega arith })
      (item_column-IsStorable, tt) ((refl, refl), ((refl, refl), tt)) (refl, tt) held-IsReady
      ((((refl, refl), tt), (tt, tt)), tt)

start-Fresh_example :
    (s : Store) × (rows : List Attribute) × (start zeros putting uuids blank ≡ some (started s))
    × IsConsistent s
    × InsertedAll system_columns [] rows
    × (get_relation (codes "sys_class") s ≡ some (loaded rows (bare rel_class.0)))
    × (get_relation (codes "sys_attribute") s ≡ some (loaded rows (bare rel_attr.0)))
start-Fresh_example =
    start-Fresh zeros putting uuids (λ key value db new. ([], db, refl, refl)) uuids-AreUnique
