-- ===== src/Storage/Restart/Written.antt =====
-- The rows that `WriteRelMeta` adds to the two databases.
use dbms.Prelude.{
  Every, Every-insert, ℕ, suc, ◌+◌, ◌≤◌, ◌≡◌, refl, sym, ap, subst, some, List, [], ◌∷◌, ◌++◌, Bool,
  true, false, not, ◌&&◌, arith, Bytes, length, take, bytes_eq, ◌==◌, ==_iff,
}
use dbms.Common.Memory.{Allocator, ◌>>=◌}
use dbms.Common.Attribute.{Attribute}
use dbms.Common.Attribute.Catalog as AttributeCatalog
use dbms.Common.Relation.{Relation, new_relation}
use dbms.Common.Relation.Catalog as RelationCatalog
use dbms.Storage.{Store, Database, Leveldb, write_attributes, write_rel_meta}
use dbms.Storage.Creation.{AreStorable}
use dbms.Storage.Restart.{in_use, Aligned, IsRelationRow, HoldsRelations}
use dbms.Storage.Restart.Attributes.{IsAttributeRow, HoldsAttributes}

-- a list with one more element, somewhere
abbrev pub Inserted {ℓ} : {A : Type ℓ} → A → List A → List A → Type ℓ
Inserted {A = A} x xs ys =
    (before : List A) × (after : List A) × (xs ≡ before ++ after) × (ys ≡ before ++ x ∷ after)

abbrev pub InsertedAll {ℓ} : {A : Type ℓ} → List A → List A → List A → Type ℓ
InsertedAll [] ys zs = ys ≡ zs
InsertedAll {A = A} (x ∷ xs) ys zs = (mid : List A) × Inserted x ys mid × InsertedAll xs mid zs

pub InsertedAll-Every {ℓ} :
    {A : Type ℓ} (P : A → Type 0) (xs ys zs : List A)
    → Every P xs
    → Every P ys
    → InsertedAll xs ys zs
    → Every P zs
InsertedAll-Every P [] ys zs p q e = subst (Every P) e q
InsertedAll-Every P (x ∷ xs) ys zs (p, ps) q (mid, (before, after, e, f), all) =
    InsertedAll-Every P xs mid zs ps
      (subst (Every P) (sym f) (Every-insert P x before after p (subst (Every P) e q))) all

-- no entry has the key
abbrev pub is_absent : Bytes → Database → Bool
is_absent key [] = true
is_absent key ((k, v) ∷ db) = not (bytes_eq k key) && is_absent key db

-- `Put` of a new key adds an entry and leaves the others in their order.
abbrev pub AddsNew : Leveldb → Type 0
AddsNew l =
    (key value : Bytes) (db : Database)
    → is_absent key db ≡ true
    → Inserted (key, value) db (l.put key value db)

Aligned-insert {ℓ} :
    {A : Type ℓ} (P : A → Bytes → Type 0) (x : A) (key value : Bytes) (before after : Database)
    (xs : List A)
    → P x value
    → Aligned P (before ++ after) xs
    → (ys : List A) × Inserted x xs ys × Aligned P (before ++ (key, value) ∷ after) ys
Aligned-insert P x key value [] after xs p h = (x ∷ xs, ([], xs, refl, refl), (p, h))
Aligned-insert P x key value ((k, v) ∷ before) after [] p h = absurd h
Aligned-insert P x key value ((k, v) ∷ before) after (y ∷ xs) p (q, h) =
    let (ys, (b, a, e, f), r) = Aligned-insert P x key value before after xs p h in
    (y ∷ ys, (y ∷ b, a, ap (◌∷◌ y) e, ap (◌∷◌ y) f), (q, r))

Aligned-put {ℓ} :
    {A : Type ℓ} (P : A → Bytes → Type 0) (l : Leveldb) (x : A) (key value : Bytes) (db : Database)
    (xs : List A)
    → AddsNew l
    → is_absent key db ≡ true
    → P x value
    → Aligned P db xs
    → (ys : List A) × Inserted x xs ys × Aligned P (l.put key value db) ys
Aligned-put P l x key value db xs adds new p h =
    let (before, after, e, f) = adds key value db new in
    let (ys, i, r) =
      Aligned-insert P x key value before after xs p (subst (λ d. Aligned P d xs) e h) in
    (ys, i, subst (λ d. Aligned P d ys) (sym f) r)

is_absent-insert :
    (key k v : Bytes) (before after : Database)
    → bytes_eq k key ≡ false
    → is_absent key (before ++ after) ≡ true
    → is_absent key (before ++ (k, v) ∷ after) ≡ true
is_absent-insert key k v [] after e h = ground (arith, e, h)
is_absent-insert key k v ((j, w) ∷ before) after e h =
    ground (arith, is_absent-insert key k v before after e, h)

is_absent-put :
    (l : Leveldb) (key k v : Bytes) (db : Database)
    → AddsNew l
    → is_absent k db ≡ true
    → bytes_eq k key ≡ false
    → is_absent key db ≡ true
    → is_absent key (l.put k v db) ≡ true
is_absent-put l key k v db adds new e h =
    let (before, after, f, g) = adds k v db new in
    subst (λ d. is_absent key d ≡ true) (sym g)
      (is_absent-insert key k v before after e (subst (λ d. is_absent key d ≡ true) f h))

-- `GenUUID` returns no value twice.
abbrev pub AreUnique : (ℕ → Bytes) → Type 0
AreUnique keys = (i j : ℕ) → bytes_eq (keys i) (keys j) ≡ (i == j)

abbrev pub Later : ℕ → (ℕ → Bytes) → Database → Type 0
Later i keys db = (j : ℕ) → i ≤ j → is_absent (keys j) db ≡ true

Later-put :
    (l : Leveldb) (keys : ℕ → Bytes) (i : ℕ) (value : Bytes) (db : Database)
    → AddsNew l
    → AreUnique keys
    → Later i keys db
    → Later (suc i) keys (l.put (keys i) value db)
Later-put l keys i value db adds unique later j le =
    let apart : bytes_eq (keys i) (keys j) ≡ false = ground (arith, unique i j, ==_iff i j, le) in
    is_absent-put l (keys j) (keys i) value db adds (later i (omega arith)) apart
      (later j (omega (arith, le)))

write_attributes-Holds :
    (m : Allocator) (l : Leveldb) (keys : ℕ → Bytes) (i : ℕ) (attributes : List Attribute)
    (db : Database) (rows : List Attribute)
    → AddsNew l
    → AreUnique keys
    → Later i keys db
    → AreStorable attributes
    → HoldsAttributes m db rows
    → (db' : Database) × (rows' : List Attribute) × (write_attributes m l keys i attributes db
        ≡ some db')
      × InsertedAll attributes rows rows'
      × HoldsAttributes m db' rows'
      × Later (i + length attributes) keys db'
unfolding write_attributes
write_attributes-Holds m l keys i [] db rows adds unique later v h =
    (db, rows, refl, refl, h, λ j le. later j (omega (arith, le)))
write_attributes-Holds m l keys i (a ∷ attributes) db rows adds unique later (v, vs) h =
    let (tuple, e, _) = AttributeCatalog.attribute-stored m a a v in
    let value = take (56 + length a.name) tuple in
    let (mid, inserted, h') =
      Aligned-put (IsAttributeRow m) l a (keys i) value db rows adds (later i (omega arith))
        (v, ap in_use e) h in
    let (db', rows', f, all, h'', k) =
      write_attributes-Holds m l keys (suc i) attributes (l.put (keys i) value db) mid adds unique
        (Later-put l keys i value db adds unique later) vs h' in
    (db', rows', rw (e, ◌>>=◌) f, (mid, inserted, all), h'', λ j le. k j (omega (arith, le)))

-- what a store must be for `WriteRelMeta`, and is after it
pub record IsReady (m : Allocator) (keys : ℕ → Bytes) (s : Store) (rs : List Relation)
    (rows : List Attribute) : Type 0 where
  pub class_new : Later 0 keys s.db_class
  pub attribute_new : Later 0 keys s.db_attribute
  pub relations : HoldsRelations m s.db_class rs
  pub attributes : HoldsAttributes m s.db_attribute rows

-- Where `Put` of a new key adds an entry and leaves the others in their order, and all keys are new
-- and differ, `WriteRelMeta` succeeds for a relation that can be stored: the databases that held
-- the rows of relations and attributes hold these, one row for the relation and one for each of its
-- attributes, and no others, and the keys that were not used are new to them.
pub write_rel_meta-IsReady :
    (m : Allocator) (l : Leveldb) (keys : ℕ → Bytes) (r : Relation) (s : Store) (rs : List Relation)
    (rows : List Attribute)
    → AddsNew l
    → AreUnique keys
    → RelationCatalog.IsStorable r
    → AreStorable r.attributes
    → IsReady m keys s rs rows
    → (s' : Store) × (rs' : List Relation) × (rows' : List Attribute) × (write_rel_meta m l keys r s
        ≡ some s')
      × Inserted r rs rs'
      × InsertedAll r.attributes rows rows'
      × IsReady m (λ i. keys (suc (length r.attributes) + i)) s' rs' rows'
unfolding write_rel_meta
write_rel_meta-IsReady m l keys r s rs rows adds unique v vs ready =
    let (tuple, e, _) = RelationCatalog.relation-stored m r new_relation v in
    let value = take (16 + length r.name) tuple in
    let n = length r.attributes in
    let (rs', inserted, h') =
      Aligned-put (IsRelationRow m) l r (keys 0) value s.db_class rs adds
        (ready.class_new 0 (omega arith)) (v, ap in_use e) ready.relations in
    let (db, rows', f, all, k', later) =
      write_attributes-Holds m l keys 1 r.attributes s.db_attribute rows adds unique
        (λ j le. ready.attribute_new j (omega arith)) vs ready.attributes in
    (
      record s { db_class = l.put (keys 0) value s.db_class; db_attribute = db },
      rs',
      rows',
      rw (e, ◌>>=◌) (rw (f, ◌>>=◌) refl),
      inserted,
      all,
      record {
        class_new = λ j le.
            Later-put l keys 0 value s.db_class adds unique ready.class_new (suc n + j)
              (omega arith);
        attribute_new = λ j le. later (suc n + j) (omega arith);
        relations = h';
        attributes = k';
      },
    )
