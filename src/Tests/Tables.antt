-- ===== src/Tests/Tables.antt =====
-- The catalog and the handlers.
use dbms.Prelude.{
  ℕ, suc, ◌-◌, ◌≡◌, refl, arith, none, some, List, [], ◌∷◌, true, false, Bytes, bytes_eq, codes,
  if◌then◌else◌,
}
use dbms.Prelude.Maps.{StdMap, find, nat_key, bytes_key, place, erase}
use dbms.Common.Define.{dt_integer}
use dbms.Common.Attribute.{new_attribute}
use dbms.Common.Relation.{Relation, add_attribute}
use dbms.Storage.{
  Store, TableSchema, Leveldb, HandlerMap, insert_relation, get_relation, gen_relation_id,
  size_of_column, attribute_of_column, add_columns, create_relation, new_handler, delete_io_object,
}
use dbms.Storage.Catalog.{IsConsistent, insert_relation-IsConsistent, get_relation-insert_relation}
use dbms.Storage.Creation.{IsWritten, gen_relation_id-free, create_relation-get_relation}
use dbms.Storage.Handlers.{
  IsCounted, references, new_handler-references, delete_io_object-references,
}
use dbms.Realizer.Definition.{ColumnDefine, CreateStmt, exec_create}
use dbms.Realizer.Definition.Keys.{exec_create-keys}
use dbms.Tests.{zeros, users}

abbrev leveldb : Leveldb
leveldb = record { put = λ key value db. place key value (erase key db) }

-- the catalog before any relation is made
abbrev empty_store : Store
empty_store = record {
  name_rel_map = [];
  id_rel_map = [];
  all_relations = [];
  db_class = [];
  db_attribute = [];
}

empty_store-IsConsistent : IsConsistent empty_store
unfolding find
empty_store-IsConsistent = record {
  by_name = λ name i h. absurd (ground (arith, h));
  by_id = λ id i h. absurd (ground (arith, h));
}

insert_relation-IsConsistent_example : IsConsistent (insert_relation users empty_store).0
insert_relation-IsConsistent_example =
    insert_relation-IsConsistent users empty_store empty_store-IsConsistent

get_relation-insert_relation_example :
    ((insert_relation users empty_store).1 ≡ true)
    × (get_relation (codes "users") (insert_relation users empty_store).0 ≡ some users)
unfolding find insert_relation bytes_eq
get_relation-insert_relation_example =
    get_relation-insert_relation users empty_store (codes "users") empty_store-IsConsistent

abbrev taken : StdMap ℕ ℕ
taken = (7, 0) ∷ []

gen_relation_id-free_example :
    (new : ℕ) × (rand : List ℕ) × (gen_relation_id (7 ∷ 8 ∷ []) taken ≡ some (new, rand))
    × (find new taken ≡ none)
unfolding find
gen_relation_id-free_example = gen_relation_id-free (7 ∷ []) [] 8 taken refl

abbrev schema : TableSchema
schema = record {
  name = codes "t";
  column_list =
      record {
        name = codes "a";
        data_type = dt_integer;
        length = 0;
        is_null = false;
        is_primary_key = false;
      }
      ∷ [];
}

abbrev made : Relation
made = record {
  name = codes "t";
  relation_id = 9;
  attributes =
      record new_attribute {
        name = codes "a";
        relation_id = 9;
        max_length = 8;
        data_type = dt_integer;
      }
      ∷ [];
}

create_relation-get_relation_example :
    (s : Store) × (create_relation zeros leveldb (λ i. i ∷ []) (9 ∷ []) schema empty_store
      ≡ some (s, true))
    × IsConsistent s
    × ((name : Bytes)
        → get_relation name s
          ≡ (if bytes_eq (codes "t") name then some made else get_relation name empty_store))
    × IsWritten zeros leveldb (λ i. i ∷ []) made empty_store s
unfolding find gen_relation_id add_columns attribute_of_column size_of_column add_attribute
create_relation-get_relation_example =
    create_relation-get_relation zeros leveldb (λ i. i ∷ []) (9 ∷ []) [] 9 schema empty_store made
      empty_store-IsConsistent refl refl
      (record { relation_id_fits = omega arith; name_fits = omega arith })
      (
        record {
          id_fits = omega arith;
          relation_id_fits = omega arith;
          max_length_fits = omega arith;
          data_type_fits = omega arith;
          attribute_index_fits = omega arith;
          name_fits = omega arith;
        },
        tt,
      )

-- one iterator over table 3
abbrev one_handler : HandlerMap
one_handler = (3, 1) ∷ []

one_handler-IsCounted : IsCounted one_handler
unfolding find
one_handler-IsCounted = record { distinct = (refl, tt); used = λ relid h. ground (arith, h) }

new_handler-references_example :
    IsCounted (new_handler 3 one_handler)
    × (references 3 (new_handler 3 one_handler) ≡ suc (references 3 one_handler))
new_handler-references_example = new_handler-references 3 3 one_handler one_handler-IsCounted

delete_io_object-references_example :
    (rest : HandlerMap) × (delete_io_object 3 one_handler ≡ some rest)
    × IsCounted rest
    × (references 3 rest ≡ references 3 one_handler - 1)
unfolding find
delete_io_object-references_example =
    delete_io_object-references 3 3 one_handler one_handler-IsCounted (omega arith)

-- a table of two columns, both the primary key
abbrev two_keys : CreateStmt
two_keys =
    let a : ColumnDefine = record {
      column_name = codes "a";
      column_type = dt_integer;
      data_length = 0;
      is_primary_key = true;
    } in
    record {
      table_name = codes "t";
      column_define_list = a ∷ record a { column_name = codes "b" } ∷ [];
    }

exec_create-keys_example :
    exec_create zeros leveldb (λ i. i ∷ []) [] (λ i. false) two_keys empty_store
    ≡ some (record {
      store = empty_store;
      ok = false;
      message = codes "relation t cannot have multiple keys.";
    })
exec_create-keys_example =
    exec_create-keys zeros leveldb (λ i. i ∷ []) [] (λ i. false) two_keys empty_store
