-- ===== src/Storage/Restart/Durable.antt =====
-- What `ReadSystemTable` of a later start reads after `WriteRelMeta`.
use dbms.Prelude.{
  Every, Every-insert, Every-map, ℕ, suc, ◌+◌, ◌≡◌, sym, subst, inl, inr, some, List, [], ◌∷◌, ◌++◌,
  arith, Bytes, length, bytes_eq, bytes_eq_iff, Bool-cases, ==_iff, refl,
}
use dbms.Common.Memory.{Allocator}
use dbms.Common.Attribute.{Attribute}
use dbms.Common.Relation.{Relation}
use dbms.Common.Relation.Catalog as RelationCatalog
use dbms.Storage.{Store, Leveldb, get_relation, read_system_table, write_rel_meta}
use dbms.Storage.Catalog.{IsConsistent}
use dbms.Storage.Creation.{AreStorable}
use dbms.Storage.Start.{opened}
use dbms.Storage.Restart.{AllApart, Apart, bare}
use dbms.Storage.Restart.Attributes.{loaded}
use dbms.Storage.Restart.Whole.{IsOf, listed, read_system_table-Reloads}
use dbms.Storage.Restart.Written.{
  Inserted, InsertedAll, InsertedAll-Every, AddsNew, AreUnique, IsReady, write_rel_meta-IsReady,
}

-- an attribute of the relation
abbrev pub Belongs : Relation → Attribute → Type 0
Belongs r a = r.relation_id ≡ a.relation_id

-- different names and identifiers, and attributes of these relations only
abbrev pub IsReadable : List Relation → List Attribute → Type 0
IsReadable rs rows = AllApart rs × Every (IsOf rs) rows

-- `ReadSystemTable` on the databases of a store finds these relations by their names, each with the
-- rows of its attributes read into it, and nothing else.
abbrev pub Reloads : Store → List Relation → List Attribute → Type 0
Reloads s rs rows =
    (t : Store) × (read_system_table (opened s.db_class s.db_attribute) ≡ some t)
    × IsConsistent t
    × ((name : Bytes) → get_relation name t ≡ listed rows name rs)

Apart-sym : (r x : Relation) → Apart r x → Apart x r
Apart-sym r x (n, i) = (
  elim (Bool-cases (bytes_eq x.name r.name)) [
    | inl e ↦
        absurd (
          ground
            (arith, (bytes_eq_iff r.name x.name).1 (sym ((bytes_eq_iff x.name r.name).0 e)), n))
    | inr e ↦ e
  ],
  ground (arith, i, ==_iff r.relation_id x.relation_id, ==_iff x.relation_id r.relation_id),
)

AllApart-insert :
    (r : Relation) (before after : List Relation)
    → Every (Apart r) (before ++ after)
    → AllApart (before ++ after)
    → AllApart (before ++ r ∷ after)
AllApart-insert r [] after e a = (e, a)
AllApart-insert r (x ∷ before) after (p, ps) (q, qs) = (
  Every-insert (Apart x) r before after (Apart-sym r x p) q,
  AllApart-insert r before after ps qs,
)

IsOf-insert :
    (r : Relation) (a : Attribute) (before after : List Relation)
    → IsOf (before ++ after) a
    → IsOf (before ++ r ∷ after) a
IsOf-insert r a [] after o = inr o
IsOf-insert r a (x ∷ before) after (inl e) = inl e
IsOf-insert r a (x ∷ before) after (inr o) = inr (IsOf-insert r a before after o)

Belongs-IsOf :
    (r : Relation) (a : Attribute) (before after : List Relation)
    → Belongs r a
    → IsOf (before ++ r ∷ after) a
Belongs-IsOf r a [] after e = inl e
Belongs-IsOf r a (x ∷ before) after e = inr (Belongs-IsOf r a before after e)

listed-inserted :
    (rows : List Attribute) (r : Relation) (before after : List Relation)
    → Every (Apart r) (before ++ after)
    → listed rows r.name (before ++ r ∷ after) ≡ some (loaded rows (bare r))
listed-inserted rows r [] after e = rw ((bytes_eq_iff r.name r.name).1 refl) refl
listed-inserted rows r (x ∷ before) after (p, ps) =
    rw ((Apart-sym r x p).0) (listed-inserted rows r before after ps)

-- the same of a list in which the relation was inserted somewhere
Inserted-IsReadable :
    (r : Relation) (rs rs' : List Relation) (rows rows' : List Attribute)
    → Inserted r rs rs'
    → InsertedAll r.attributes rows rows'
    → Every (Apart r) rs
    → Every (Belongs r) r.attributes
    → IsReadable rs rows
    → IsReadable rs' rows' × (listed rows' r.name rs' ≡ some (loaded rows' (bare r)))
Inserted-IsReadable r rs rs' rows rows' (before, after, e, f) all new own (apart, of) =
    let new' = subst (Every (Apart r)) e new in
    (
      (
        subst AllApart (sym f) (AllApart-insert r before after new' (subst AllApart e apart)),
        subst (λ l. Every (IsOf l) rows') (sym f)
            (InsertedAll-Every (IsOf (before ++ r ∷ after)) r.attributes rows rows'
              (Every-map (Belongs r) (IsOf (before ++ r ∷ after)) r.attributes
                (λ a. Belongs-IsOf r a before after) own)
              (Every-map (IsOf (before ++ after)) (IsOf (before ++ r ∷ after)) rows
                (λ a. IsOf-insert r a before after) (subst (λ l. Every (IsOf l) rows) e of))
              all),
      ),
      subst (λ l. listed rows' r.name l ≡ some (loaded rows' (bare r))) (sym f)
          (listed-inserted rows' r before after new'),
    )

-- Where `Put` of a new key adds an entry and leaves the others in their order, and all keys are new
-- and differ, `WriteRelMeta` succeeds for a relation that can be stored, whose name and identifier
-- no other relation has and whose attributes have its identifier: the databases hold one row more
-- for the relation and one for each of its attributes, and no others. Where they held relations
-- with different names and identifiers and attributes of these, they still do, `ReadSystemTable`
-- succeeds on them, and for every name `GetRelation` then finds the relation of this name or
-- nothing where there is none; by its name it finds the relation that was written, with its
-- identifier and with the rows of its attributes read in their order. The keys that were not used
-- are new to the databases.
pub write_rel_meta-Reloads :
    (m : Allocator) (l : Leveldb) (keys : ℕ → Bytes) (r : Relation) (s : Store) (rs : List Relation)
    (rows : List Attribute)
    → AddsNew l
    → AreUnique keys
    → RelationCatalog.IsStorable r
    → AreStorable r.attributes
    → Every (Apart r) rs
    → Every (Belongs r) r.attributes
    → IsReady m keys s rs rows
    → IsReadable rs rows
    → (s' : Store) × (rs' : List Relation) × (rows' : List Attribute) × (write_rel_meta m l keys r s
        ≡ some s')
      × Inserted r rs rs'
      × InsertedAll r.attributes rows rows'
      × IsReady m (λ i. keys (suc (length r.attributes) + i)) s' rs' rows'
      × IsReadable rs' rows'
      × Reloads s' rs' rows'
      × (listed rows' r.name rs' ≡ some (loaded rows' (bare r)))
write_rel_meta-Reloads m l keys r s rs rows adds unique v vs new own ready readable =
    let (s', rs', rows', e, i, all, ready') =
      write_rel_meta-IsReady m l keys r s rs rows adds unique v vs ready in
    let (readable', found) = Inserted-IsReadable r rs rs' rows rows' i all new own readable in
    (
      s',
      rs',
      rows',
      e,
      i,
      all,
      ready',
      readable',
      read_system_table-Reloads m s'.db_class s'.db_attribute rs' rows' ready'.relations
          ready'.attributes readable'.0 readable'.1,
      found,
    )
