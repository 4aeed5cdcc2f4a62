-- ===== src/Storage/Creation.antt =====
-- `CreateRelation` on a name that is free, and on one that is taken.
use dbms.Prelude.{
  ℕ, suc, ◌+◌, ◌≡◌, refl, subst, none, some, List, [], ◌∷◌, ◌++◌, true, arith, Bytes, length,
  bytes_eq, if◌then◌else◌, Option-cases, inl, inr, take, ◌&&◌,
}
use dbms.Prelude.Maps.{StdMap, find, nat_key, bytes_key}
use dbms.Common.Memory.{Allocator, ◌>>=◌}
use dbms.Common.Attribute.{Attribute}
use dbms.Common.Attribute.Catalog as AttributeCatalog
use dbms.Common.Relation.{Relation, new_relation, add_attribute}
use dbms.Common.Relation as Relations
use dbms.Common.Relation.Catalog as RelationCatalog
use dbms.Storage.{
  Store, Database, ColumnSchema, TableSchema, insert_relation, get_relation, gen_relation_id,
  attribute_of_column, add_columns, write_attributes, write_rel_meta, create_relation, Leveldb,
}
use dbms.Storage.Catalog.{
  IsConsistent, is_none, insert_relation-IsConsistent, get_relation-insert_relation,
}

-- `GenRelationID` returns where one of the numbers that `rand` yields is free, and returns a free
-- one.
pub gen_relation_id-free :
    (before after : List ℕ) (id : ℕ) (ids : StdMap ℕ ℕ)
    → find id ids ≡ none
    → (new : ℕ) × (rand : List ℕ) × (gen_relation_id (before ++ id ∷ after) ids ≡ some (new, rand))
      × (find new ids ≡ none)
unfolding gen_relation_id
gen_relation_id-free [] after id ids h = (id, after, rw (gen_relation_id, h) refl, h)
gen_relation_id-free (x ∷ before) after id ids h = elim (Option-cases (find x ids)) [
  | inl e ↦ (x, before ++ id ∷ after, rw (gen_relation_id, e) refl, e)
  | inr (i, e) ↦
      let (new, rand, g, f) = gen_relation_id-free before after id ids h in
      (new, rand, rw (gen_relation_id, e) g, f)
]

-- all attributes can be stored
abbrev pub AreStorable : List Attribute → Type 0
AreStorable [] = Unit
AreStorable (a ∷ attributes) = AttributeCatalog.IsStorable a × AreStorable attributes

write_attributes-total :
    (m : Allocator) (l : Leveldb) (keys : ℕ → Bytes) (i : ℕ) (attributes : List Attribute)
    (db : Database)
    → AreStorable attributes
    → (db' : Database) × (write_attributes m l keys i attributes db ≡ some db')
unfolding write_attributes
write_attributes-total m l keys i [] db v = (db, refl)
write_attributes-total m l keys i (a ∷ attributes) db v =
    let (tuple, e, _) = AttributeCatalog.from_tuple-to_tuple m a a v.0 in
    let (db', f) =
      write_attributes-total m l keys (suc i) attributes
        (l.put (keys i) (take (56 + length a.name) tuple) db) v.1 in
    (db', rw (e, ◌>>=◌) f)

-- The catalog row of a relation is in the database of relations.
abbrev pub IsWritten : Allocator → Leveldb → (ℕ → Bytes) → Relation → Store → Store → Type 0
IsWritten m l keys r s s' =
    (tuple : Bytes) × (Relations.to_tuple m r ≡ some (tuple, 16 + length r.name))
    × (s'.db_class ≡ l.put (keys 0) (take (16 + length r.name) tuple) s.db_class)

abbrev with_databases : Store → Database → Database → Store
with_databases s db_class db_attribute = record s {
  db_class = db_class;
  db_attribute = db_attribute;
}

write_rel_meta-total :
    (m : Allocator) (l : Leveldb) (keys : ℕ → Bytes) (r : Relation) (s : Store)
    → RelationCatalog.IsStorable r
    → AreStorable r.attributes
    → (tuple : Bytes) × (db : Database) × (Relations.to_tuple m r
        ≡ some (tuple, 16 + length r.name))
      × (write_rel_meta m l keys r s
          ≡ some
              (with_databases s (l.put (keys 0) (take (16 + length r.name) tuple) s.db_class) db))
unfolding write_rel_meta
write_rel_meta-total m l keys r s v w =
    let (tuple, e, f) = RelationCatalog.relation_round_trip m r new_relation v in
    let (db, g) = write_attributes-total m l keys 1 r.attributes s.db_attribute w in
    (tuple, db, e, rw (e, ◌>>=◌) (rw (g, ◌>>=◌) refl))

add_columns-name :
    (i : ℕ) (columns : List ColumnSchema) (r rel : Relation)
    → add_columns i columns r ≡ some rel
    → rel.name ≡ r.name
unfolding add_columns add_attribute
add_columns-name i [] r rel h = ground (arith, h)
add_columns-name i (c ∷ columns) r rel h = elim (Option-cases (attribute_of_column c i)) [
  | inl e ↦ absurd (ground (arith, e, h))
  | inr (a, e) ↦
      add_columns-name (suc i) columns (add_attribute r a true).0 rel (ground (arith, e, h))
]

add_columns-relation_id :
    (i : ℕ) (columns : List ColumnSchema) (r rel : Relation)
    → add_columns i columns r ≡ some rel
    → rel.relation_id ≡ r.relation_id
unfolding add_columns add_attribute
add_columns-relation_id i [] r rel h = ground (arith, h)
add_columns-relation_id i (c ∷ columns) r rel h = elim (Option-cases (attribute_of_column c i)) [
  | inl e ↦ absurd (ground (arith, e, h))
  | inr (a, e) ↦
      add_columns-relation_id (suc i) columns (add_attribute r a true).0 rel (ground (arith, e, h))
]

gen_relation_id-find :
    (rand rest : List ℕ) (id : ℕ) (ids : StdMap ℕ ℕ)
    → gen_relation_id rand ids ≡ some (id, rest)
    → find id ids ≡ none
unfolding gen_relation_id
gen_relation_id-find [] rest id ids h = ground arith
gen_relation_id-find (x ∷ rand) rest id ids h = elim (Option-cases (find x ids)) [
  | inl e ↦ subst (λ i. find i ids ≡ none) (ground (arith, e, h)) e
  | inr (i, e) ↦ gen_relation_id-find rand rest id ids (ground (arith, e, h))
]

get_relation-fresh :
    (r : Relation) (s : Store) (name : Bytes)
    → IsConsistent s
    → find r.relation_id s.id_rel_map ≡ none
    → get_relation name (insert_relation r s).0 ≡ (
        if is_none (find r.name s.name_rel_map) && bytes_eq r.name name
        then some r
        else get_relation name s)
get_relation-fresh r s name c h =
    let (p, q) = get_relation-insert_relation r s name c in ground (arith, p, q, h)

insert_relation-db_class :
    (r : Relation) (s : Store) → (insert_relation r s).0.db_class ≡ s.db_class
unfolding insert_relation
insert_relation-db_class r s = ground (
  arith,
  Option-cases (find r.name s.name_rel_map),
  Option-cases (find r.relation_id s.id_rel_map),
)

-- `CreateRelation` returns true whenever the row of the relation and those of its attributes fit
-- their blocks. A consistent catalog stays so. Where the name was free, `GetRelation` finds the new
-- relation under it; where it was taken, nothing that `GetRelation` finds changes. Either way the
-- row of the new relation is put into the database of relations.
pub create_relation-get_relation :
    (m : Allocator) (l : Leveldb) (keys : ℕ → Bytes) (rand rest : List ℕ) (id : ℕ)
    (schema : TableSchema) (s : Store) (rel : Relation)
    → IsConsistent s
    → gen_relation_id rand s.id_rel_map ≡ some (id, rest)
    → add_columns 0 schema.column_list
        (record new_relation { name = schema.name; relation_id = id })
      ≡ some rel
    → RelationCatalog.IsStorable rel
    → AreStorable rel.attributes
    → (s' : Store) × (create_relation m l keys rand schema s ≡ some (s', true))
      × IsConsistent s'
      × ((name : Bytes)
          → get_relation name s' ≡ (
              if is_none (find schema.name s.name_rel_map) && bytes_eq schema.name name
              then some rel
              else get_relation name s))
      × IsWritten m l keys rel s s'
unfolding create_relation get_relation
create_relation-get_relation m l keys rand rest id schema s rel c g a v w =
    let n =
      add_columns-name 0 schema.column_list
        (record new_relation { name = schema.name; relation_id = id }) rel a in
    let i =
      add_columns-relation_id 0 schema.column_list
        (record new_relation { name = schema.name; relation_id = id }) rel a in
    let f : find rel.relation_id s.id_rel_map ≡ none =
      rw i (gen_relation_id-find rand rest id s.id_rel_map g) in
    let (tuple, db, t, e) = write_rel_meta-total m l keys rel s v w in
    let s₁ = with_databases s (l.put (keys 0) (take (16 + length rel.name) tuple) s.db_class) db in
    let c₁ : IsConsistent s₁ = record { by_name = c.by_name; by_id = c.by_id } in
    (
      (insert_relation rel s₁).0,
      rw (create_relation, g, ◌>>=◌) (rw (a, ◌>>=◌) (rw (e, ◌>>=◌) refl)),
      insert_relation-IsConsistent rel s₁ c₁,
      (λ name.
          subst
            (λ k. get_relation name (insert_relation rel s₁).0 ≡ (
              if is_none (find k s.name_rel_map) && bytes_eq k name
              then some rel
              else get_relation name s))
            n (get_relation-fresh rel s₁ name c₁ f)),
      (tuple, t, insert_relation-db_class rel s₁),
    )
