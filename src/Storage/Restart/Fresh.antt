-- ===== src/Storage/Restart/Fresh.antt =====
-- The first start of a server, on a disk that has no databases.
use dbms.Prelude.{
  Every, ℕ, suc, ◌+◌, ◌≡◌, refl, sym, ap, subst, ◌∙◌, ◌⊎◌, inl, inr, some, List, [], ◌∷◌, ◌++◌,
  Bool, true, false, arith, Bytes, codes, length, bytes_eq, ==_iff, ltb, ◌&&◌,
}
use dbms.Prelude.Maps.{nat_key, bytes_key}
use dbms.Common.Memory.{Allocator, ◌>>=◌}
use dbms.Common.Attribute.{Attribute}
use dbms.Common.Attribute.Catalog as AttributeCatalog
use dbms.Common.Relation.{Relation, add_attribute}
use dbms.Common.Relation.Catalog as RelationCatalog
use dbms.Storage.{Store, Leveldb, get_relation}
use dbms.Storage.Catalog.{IsConsistent}
use dbms.Storage.Creation.{AreStorable}
use dbms.Storage.Start.{
  Disk, Started, opened, rel_class, rel_attr, create_system_table, init_db, open_databases, start,
}
use dbms.Storage.Restart.{AllApart, bare}
use dbms.Storage.Restart.Attributes.{loaded}
use dbms.Storage.Restart.Whole.{IsOf, listed, read_system_table-Reloads}
use dbms.Storage.Restart.Written.{
  Inserted, InsertedAll, InsertedAll-Every, AddsNew, AreUnique, IsReady, write_rel_meta-IsReady,
}

-- no database is there, and all calls succeed
abbrev pub blank : Disk
blank = record {
  class_exists = false;
  attribute_exists = false;
  mkdir_succeeds = true;
  class_created = true;
  attribute_created = true;
  class_opened = true;
  attribute_opened = true;
  db_class = [];
  db_attribute = [];
}

head_or : Relation → List Relation → Relation
head_or r [] = r
head_or r (x ∷ xs) = x

tail_of : List Relation → List Relation
tail_of [] = []
tail_of (x ∷ xs) = xs

Inserted-empty : (x : Relation) (xs : List Relation) → Inserted x [] xs → xs ≡ x ∷ []
Inserted-empty x xs ([], after, e, f) = f ∙ ap (◌∷◌ x) (sym e)
Inserted-empty x xs (z ∷ before, after, e, f) = absurd (ground (arith, e))

Inserted-single :
    (x y : Relation) (ys : List Relation)
    → Inserted y (x ∷ []) ys
    → (ys ≡ x ∷ y ∷ []) ⊎ (ys ≡ y ∷ x ∷ [])
unfolding head_or tail_of
Inserted-single x y ys ([], after, e, f) = inr (f ∙ ap (◌∷◌ y) (sym e))
Inserted-single x y ys (z ∷ before, after, e, f) =
    let rest = Inserted-empty y (before ++ y ∷ after) (before, after, ap tail_of e, refl) in
    inl (f ∙ ap (◌∷◌ z) rest ∙ ap (λ w. w ∷ y ∷ []) (sym (ap (head_or x) e)))

-- what is needed of the two relations in the order in which they are read
abbrev Fits : List Relation → Type 0
Fits rs =
    AllApart rs
    × Every (IsOf rs) rel_class.0.attributes
    × Every (IsOf rs) rel_attr.0.attributes
    × ((rows : List Attribute)
        → listed rows (codes "sys_class") rs ≡ some (loaded rows (bare rel_class.0)))
    × ((rows : List Attribute)
        → listed rows (codes "sys_attribute") rs ≡ some (loaded rows (bare rel_attr.0)))

class_first : Fits (rel_class.0 ∷ rel_attr.0 ∷ [])
unfolding rel_class rel_attr add_attribute bytes_eq
class_first = (
  (((refl, refl), tt), (tt, tt)),
  (inl refl, (inl refl, tt)),
  (inr (inl refl), (inr (inl refl), (inr (inl refl), (inr (inl refl), (inr (inl refl), tt))))),
  λ rows. refl,
  λ rows. refl,
)

attr_first : Fits (rel_attr.0 ∷ rel_class.0 ∷ [])
unfolding rel_class rel_attr add_attribute bytes_eq
attr_first = (
  (((refl, refl), tt), (tt, tt)),
  (inr (inl refl), (inr (inl refl), tt)),
  (inl refl, (inl refl, (inl refl, (inl refl, (inl refl, tt))))),
  λ rows. refl,
  λ rows. refl,
)

either-Fits :
    (rs : List Relation)
    → (rs ≡ rel_class.0 ∷ rel_attr.0 ∷ []) ⊎ (rs ≡ rel_attr.0 ∷ rel_class.0 ∷ [])
    → Fits rs
either-Fits rs (inl e) = subst Fits (sym e) class_first
either-Fits rs (inr e) = subst Fits (sym e) attr_first

-- an attribute with small numbers and a short name
abbrev is_small : Attribute → Bool
is_small a =
    ltb a.id 4096
    && (ltb a.relation_id 4096
        && (ltb a.max_length 4096
            && (ltb a.data_type 4096 && (ltb a.attribute_index 1024 && ltb (length a.name) 968))))

small-IsStorable : (a : Attribute) → is_small a ≡ true → AttributeCatalog.IsStorable a
small-IsStorable a h = record {
  id_fits = ground (arith, h);
  relation_id_fits = ground (arith, h);
  max_length_fits = ground (arith, h);
  data_type_fits = ground (arith, h);
  attribute_index_fits = ground (arith, h);
  name_fits = ground (arith, h);
}

three_keys : suc (length rel_class.0.attributes) ≡ 3
unfolding rel_class add_attribute
three_keys = refl

class-IsStorable : RelationCatalog.IsStorable rel_class.0 × AreStorable rel_class.0.attributes
unfolding rel_class add_attribute
class-IsStorable = (
  record { relation_id_fits = omega arith; name_fits = omega arith },
  (small-IsStorable _ refl, (small-IsStorable _ refl, tt)),
)

attr-IsStorable : RelationCatalog.IsStorable rel_attr.0 × AreStorable rel_attr.0.attributes
unfolding rel_attr rel_class add_attribute
attr-IsStorable = (
  record { relation_id_fits = omega arith; name_fits = omega arith },
  (
    small-IsStorable _ refl,
    (
      small-IsStorable _ refl,
      (small-IsStorable _ refl, (small-IsStorable _ refl, (small-IsStorable _ refl, tt))),
    ),
  ),
)

opened-IsReady : (m : Allocator) (keys : ℕ → Bytes) → IsReady m keys (opened [] []) [] []
opened-IsReady m keys = record {
  class_new = λ j le. refl;
  attribute_new = λ j le. refl;
  relations = tt;
  attributes = tt;
}

shifted-AreUnique : (n : ℕ) (keys : ℕ → Bytes) → AreUnique keys → AreUnique λ i. keys (n + i)
shifted-AreUnique n keys unique i j =
    ground (arith, unique (n + i) (n + j), ==_iff (n + i) (n + j), ==_iff i j)

InsertedAll-append {ℓ} :
    {A : Type ℓ} (xs ys us vs ws : List A)
    → InsertedAll xs us vs
    → InsertedAll ys vs ws
    → InsertedAll (xs ++ ys) us ws
InsertedAll-append [] ys us vs ws e h = subst (λ l. InsertedAll ys l ws) (sym e) h
InsertedAll-append (x ∷ xs) ys us vs ws (mid, i, all) h =
    (mid, i, InsertedAll-append xs ys mid vs ws all h)

-- the columns of the two system tables
abbrev pub system_columns : List Attribute
system_columns = rel_class.0.attributes ++ rel_attr.0.attributes

-- Where `Put` of a new key adds an entry and leaves the others in their order, and the keys differ,
-- the first `Start` on a disk without databases succeeds: it leaves a consistent catalog in which
-- the two system tables are found, each with its identifier, and with those rows of its columns
-- that are kept when the rows of all columns of the two are read in some order.
pub start-Fresh :
    (m : Allocator) (l : Leveldb) (keys : ℕ → Bytes)
    → AddsNew l
    → AreUnique keys
    → (s : Store) × (rows : List Attribute) × (start m l keys blank ≡ some (Started.started s))
      × IsConsistent s
      × InsertedAll system_columns [] rows
      × (get_relation (codes "sys_class") s ≡ some (loaded rows (bare rel_class.0)))
      × (get_relation (codes "sys_attribute") s ≡ some (loaded rows (bare rel_attr.0)))
unfolding start init_db open_databases create_system_table
start-Fresh m l keys adds unique =
    let (s₁, rs₁, rows₁, e₁, i₁, a₁, ready₁) =
      write_rel_meta-IsReady m l keys rel_class.0 (opened [] []) [] [] adds unique
        class-IsStorable.0 class-IsStorable.1 (opened-IsReady m keys) in
    let (s₂, rs₂, rows₂, e₂, i₂, a₂, ready₂) =
      write_rel_meta-IsReady m l (λ i. keys (3 + i)) rel_attr.0 s₁ rs₁ rows₁ adds
        (shifted-AreUnique 3 keys unique) attr-IsStorable.0 attr-IsStorable.1
        (subst (λ n. IsReady m (λ i. keys (n + i)) s₁ rs₁ rows₁) three_keys ready₁) in
    let single = Inserted-empty rel_class.0 rs₁ i₁ in
    let order =
      Inserted-single rel_class.0 rel_attr.0 rs₂
        (subst (λ rs. Inserted rel_attr.0 rs rs₂) single i₂) in
    let (apart, of_class, of_attr, found_class, found_attr) = either-Fits rs₂ order in
    let of =
      InsertedAll-Every (IsOf rs₂) rel_attr.0.attributes rows₁ rows₂ of_attr
        (InsertedAll-Every (IsOf rs₂) rel_class.0.attributes [] rows₁ of_class tt a₁) a₂ in
    let (s, e, c, p) =
      read_system_table-Reloads m s₂.db_class s₂.db_attribute rs₂ rows₂ ready₂.relations
        ready₂.attributes apart of in
    (
      s,
      rows₂,
      rw (e₁, ◌>>=◌) (rw (e₂, ◌>>=◌) (rw (e, ◌>>=◌) refl)),
      c,
      InsertedAll-append rel_class.0.attributes rel_attr.0.attributes [] rows₁ rows₂ a₁ a₂,
      p (codes "sys_class") ∙ found_class rows₂,
      p (codes "sys_attribute") ∙ found_attr rows₂,
    )
