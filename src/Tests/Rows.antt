-- ===== src/Tests/Rows.antt =====
-- Catalog rows and messages.
use mathlib.Core.List.{Perm}
use dbms.Prelude.{ℕ, ◌≡◌, ◌≤◌, refl, arith, none, some, [], ◌∷◌, ◌++◌, Bytes, length, codes}
use dbms.Common.Attribute.{Attribute, new_attribute}
use dbms.Common.Attribute as Attributes
use dbms.Common.Attribute.Catalog as AttributeCatalog
use dbms.Common.Relation.{Relation, new_relation}
use dbms.Common.Relation as Relations
use dbms.Common.Relation.Catalog as RelationCatalog
use dbms.Common.Relation.Loading.{IsOrdered, load_attributes, rows_below, load_attributes-Perm}
use dbms.Common.Message.{MessageBuffer, re_alloc, append, contents}
use dbms.Common.Message.Bounds.{re_alloc-room, append-contents, append-overflows}
use dbms.Tests.{zeros, buffer, id_column, users}

from_tuple-to_tuple_example :
    (tuple : Bytes) × (Attributes.to_tuple zeros id_column ≡ some (tuple, 58))
    × (Attributes.from_tuple new_attribute tuple
        ≡ some (AttributeCatalog.reread id_column new_attribute))
from_tuple-to_tuple_example =
    AttributeCatalog.from_tuple-to_tuple zeros id_column new_attribute (record {
      id_fits = omega arith;
      relation_id_fits = omega arith;
      max_length_fits = omega arith;
      data_type_fits = omega arith;
      attribute_index_fits = omega arith;
      name_fits = omega arith;
    })

relation_round_trip_example :
    (tuple : Bytes) × (Relations.to_tuple zeros users ≡ some (tuple, 21))
    × (Relations.from_tuple new_relation tuple
        ≡ some (record new_relation { relation_id = 7; name = codes "users" }))
relation_round_trip_example =
    RelationCatalog.relation_round_trip zeros users new_relation
      (record { relation_id_fits = omega arith; name_fits = omega arith })

-- the rows of three columns, read in the order 1, 0, 2
abbrev column : ℕ → Attribute
column i = record new_attribute { attribute_index = i }

load_attributes-Perm_example :
    IsOrdered (load_attributes new_relation (column 1 ∷ column 0 ∷ column 2 ∷ [])).attributes
    × Perm
        (load_attributes new_relation (column 1 ∷ column 0 ∷ column 2 ∷ [])).attributes
        (column 1 ∷ column 0 ∷ [])
unfolding rows_below
load_attributes-Perm_example =
    load_attributes-Perm new_relation (column 1) (column 0 ∷ column 2 ∷ []) refl

re_alloc-room_example :
    (600 ≤ length (re_alloc zeros 600 (buffer 20)).block)
    × ((re_alloc zeros 600 (buffer 20)).buffer_length
        ≤ length (re_alloc zeros 600 (buffer 20)).block)
re_alloc-room_example = re_alloc-room zeros 600 (buffer 20) (omega arith)

append-contents_example :
    (c : MessageBuffer) × (append zeros (codes "abc") (buffer 4) ≡ some c)
    × (contents c ≡ contents (buffer 4) ++ codes "abc")
    × (length c.block ≡ 4)
append-contents_example = append-contents zeros (codes "abc") (buffer 4) (omega arith)

append-overflows_example : append zeros (codes "abc") (buffer 2) ≡ none
append-overflows_example = append-overflows zeros (codes "abc") (buffer 2) (omega arith)
