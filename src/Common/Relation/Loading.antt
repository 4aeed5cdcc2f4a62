-- ===== src/Common/Relation/Loading.antt =====
-- What becomes of attributes that are added by their index, as a restart does.
use mathlib.Core.List.{Perm, perm_middle, append-nil}
use mathlib.Core.List.Perm
use dbms.Prelude.{
  map, ◌++◌, subst, sym, Bool, true, Bool-cases, inl, inr, ℕ, ◌≤◌, ◌≡◌, refl, ap, List, [], ◌∷◌,
  false, arith, ltb, if◌then◌else◌,
}
use dbms.Common.Attribute.{Attribute}
use dbms.Common.Relation.{Relation, insert_before, insert_attribute, add_attribute}

-- The attributes stand in the order of their indices.
abbrev pub IsOrdered : List Attribute → Type 0
IsOrdered [] = Unit {0}
IsOrdered (a ∷ []) = Unit {0}
IsOrdered (a ∷ b ∷ rest) = (a.attribute_index ≤ b.attribute_index) × IsOrdered (b ∷ rest)

-- `AddAttribute(attribute, false)` for each row of the system table
unfoldable pub load_attributes : Relation → List Attribute → Relation
load_attributes r [] = r
load_attributes r (a ∷ rows) = load_attributes (add_attribute r a false).0 rows

-- the rows with an index below a bound, in their order
unfoldable pub rows_below : ℕ → List Attribute → List Attribute
rows_below n [] = []
rows_below n (a ∷ rows) =
    if ltb a.attribute_index n then a ∷ rows_below n rows else rows_below n rows

-- the row as an attribute of a relation
abbrev pub owned : ℕ → Attribute → Attribute
owned id a = record a { relation_id = id }

-- the last attribute has this index
abbrev EndsAt : ℕ → List Attribute → Type 0
EndsAt n [] = ⊥
EndsAt n (a ∷ []) = a.attribute_index ≡ n
EndsAt n (a ∷ b ∷ rest) = EndsAt n (b ∷ rest)

insert_before-IsOrdered :
    (a : Attribute) (l : List Attribute) → IsOrdered l → IsOrdered (insert_before a l)
unfolding insert_before
insert_before-IsOrdered a [] o = tt
insert_before-IsOrdered a (x ∷ []) o = ground arith
insert_before-IsOrdered a (x ∷ y ∷ l) o = ground (arith, insert_before-IsOrdered a (y ∷ l) o.1)

insert_attribute-IsOrdered :
    (a : Attribute) (l : List Attribute) → IsOrdered l → IsOrdered (insert_attribute a l)
unfolding insert_attribute
insert_attribute-IsOrdered a [] o = tt
insert_attribute-IsOrdered a (x ∷ l) o = insert_before-IsOrdered a (x ∷ l) o

insert_before-EndsAt :
    (n : ℕ) (a : Attribute) (l : List Attribute) → EndsAt n l → EndsAt n (insert_before a l)
unfolding insert_before
insert_before-EndsAt n a [] o = o
insert_before-EndsAt n a (x ∷ []) o = ground arith
insert_before-EndsAt n a (x ∷ y ∷ l) o = ground (arith, insert_before-EndsAt n a (y ∷ l) o)

first_le :
    (n : ℕ) (x : Attribute) (l : List Attribute)
    → IsOrdered (x ∷ l)
    → EndsAt n (x ∷ l)
    → x.attribute_index ≤ n
first_le n x [] o e = omega arith
first_le n x (y ∷ l) (h, o) e = omega (arith, h, first_le n y l o e)

-- what is in a list after `insert_before`, if it ends with the index `n`
abbrev after_insert : ℕ → Attribute → List Attribute → List Attribute
after_insert n a l = if ltb a.attribute_index n then a ∷ l else l

insert_before-Perm :
    (n : ℕ) (a : Attribute) (l : List Attribute)
    → IsOrdered l
    → EndsAt n l
    → Perm (insert_before a l) (after_insert n a l)
unfolding insert_before
insert_before-Perm n a [] o e = absurd e
insert_before-Perm n a (x ∷ []) o e =
    subst (λ k. Perm (insert_before a (x ∷ [])) (after_insert k a (x ∷ []))) e
      (Perm.refl (after_insert x.attribute_index a (x ∷ [])))
insert_before-Perm n a (x ∷ y ∷ l) o e =
    let rest = insert_before-Perm n a (y ∷ l) o.1 e in
    let le = first_le n x (y ∷ l) o e in
    elim (Bool-cases (ltb a.attribute_index x.attribute_index)) [
      | inl h ↦
          let below : ltb a.attribute_index n ≡ true = ground (arith, h, le) in
          rw (h, below) (Perm.refl (a ∷ x ∷ y ∷ l))
      | inr h ↦
          rw h (
            Perm.trans (Perm.cons x rest) (cons-after_insert (ltb a.attribute_index n) a x (y ∷ l)))
    ]
  where
    cons-after_insert :
        (b : Bool) (a x : Attribute) (l : List Attribute)
        → Perm (x ∷ (if b then a ∷ l else l)) (if b then a ∷ x ∷ l else x ∷ l)
    cons-after_insert true a x l = Perm.swap a x l
    cons-after_insert false a x l = Perm.refl (x ∷ l)

-- one row read into a list of attributes that is not empty
load_one :
    (n : ℕ) (r : Relation) (a : Attribute)
    → IsOrdered r.attributes
    → EndsAt n r.attributes
    → IsOrdered (add_attribute r a false).0.attributes
      × EndsAt n (add_attribute r a false).0.attributes
      × Perm
          (add_attribute r a false).0.attributes
          (after_insert n (owned r.relation_id a) r.attributes)
unfolding add_attribute
load_one n r a o e = insert_one (owned r.relation_id a) r.attributes o e
  where
    insert_one :
        (b : Attribute) (l : List Attribute)
        → IsOrdered l
        → EndsAt n l
        → IsOrdered (insert_attribute b l)
          × EndsAt n (insert_attribute b l)
          × Perm (insert_attribute b l) (after_insert n b l)
    insert_one b [] p q = absurd q
    insert_one b (x ∷ l) p q = (
      insert_before-IsOrdered b (x ∷ l) p,
      insert_before-EndsAt n b (x ∷ l) q,
      insert_before-Perm n b (x ∷ l) p q,
    )

add_attribute-relation_id :
    (r : Relation) (a : Attribute) → (add_attribute r a false).0.relation_id ≡ r.relation_id
unfolding add_attribute
add_attribute-relation_id r a = refl

-- the rows that are kept, behind the attributes that were there
after_insert-rows :
    (id : ℕ) (b : Bool) (a : Attribute) (l rows : List Attribute)
    → Perm
        ((if b then owned id a ∷ l else l) ++ map (owned id) rows)
        (l ++ map (owned id) (if b then a ∷ rows else rows))
after_insert-rows id true a l rows = Perm.symm (perm_middle l (map (owned id) rows))
after_insert-rows id false a l rows = Perm.refl (l ++ map (owned id) rows)

load_more :
    (n : ℕ) (r : Relation) (rows : List Attribute)
    → IsOrdered r.attributes
    → EndsAt n r.attributes
    → IsOrdered (load_attributes r rows).attributes
      × Perm
          (load_attributes r rows).attributes
          (r.attributes ++ map (owned r.relation_id) (rows_below n rows))
unfolding load_attributes rows_below
load_more n r [] o e =
    (o, subst (λ l. Perm r.attributes l) (sym (append-nil r.attributes)) (Perm.refl r.attributes))
load_more n r (a ∷ rows) o e =
    let r' = (add_attribute r a false).0 in
    let (o', e', one) = load_one n r a o e in
    let (p, q) = load_more n r' rows o' e' in
    let M = map (owned r.relation_id) (rows_below n rows) in
    (
      p,
      Perm.trans
          (subst
            (λ id.
              Perm (load_attributes r' rows).attributes
                (r'.attributes ++ map (owned id) (rows_below n rows)))
            (add_attribute-relation_id r a) q)
          (Perm.trans (Perm.append_right M one) (
            after_insert-rows r.relation_id (ltb a.attribute_index n) a r.attributes
              (rows_below n rows))),
    )

load_first :
    (r : Relation) (a : Attribute)
    → r.attributes ≡ []
    → (add_attribute r a false).0.attributes ≡ record a { relation_id = r.relation_id } ∷ []
unfolding add_attribute
load_first r a e = ap (insert_attribute (record a { relation_id = r.relation_id })) e

-- When the catalog rows of a relation's attributes are added to a relation that has none yet, as a
-- restart adds them, the attributes end up in the order of their indices. They are the row read
-- first and the rows whose index is below the index of that row, each as often as it was read and
-- as an attribute of this relation; all other rows are lost.
pub load_attributes-Perm :
    (r : Relation) (a : Attribute) (rows : List Attribute)
    → r.attributes ≡ []
    → IsOrdered (load_attributes r (a ∷ rows)).attributes
      × Perm
          (load_attributes r (a ∷ rows)).attributes
          (map (owned r.relation_id) (a ∷ rows_below a.attribute_index rows))
unfolding load_attributes
load_attributes-Perm r a rows e =
    let r' = (add_attribute r a false).0 in
    let f = load_first r a e in
    let (p, q) = load_more a.attribute_index r' rows (rw f tt) (rw f refl) in
    (
      p,
      subst
          (λ l.
            Perm (load_attributes r' rows).attributes
              (l ++ map (owned r.relation_id) (rows_below a.attribute_index rows)))
          f
          (subst
            (λ id.
              Perm (load_attributes r' rows).attributes
                (r'.attributes ++ map (owned id) (rows_below a.attribute_index rows)))
            (add_attribute-relation_id r a) q),
    )
