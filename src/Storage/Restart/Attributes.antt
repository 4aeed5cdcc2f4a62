-- ===== src/Storage/Restart/Attributes.antt =====
-- The second loop of `ReadSystemTable`: the rows of the attributes are added to the relations.
use dbms.Prelude.{
  Every, ℕ, zero, suc, ◌<◌, ◌≡◌, refl, sym, ap, subst, ◌∙◌, Option, none, some, List, [], ◌∷◌, true,
  false, arith, Bytes, length, set, get_elem?, get_elem?-set_self, get_elem?-set_ne, ◌==◌, ==_iff,
  if◌then◌else◌, inl, inr, Option-cases, Bool-cases,
}
use mathlib.Core.Option
use dbms.Prelude.Maps.{StdMap, find, nat_key, bytes_key}
use dbms.Common.Memory.{Allocator, ◌>>=◌}
use dbms.Common.Attribute.{Attribute, new_attribute}
use dbms.Common.Attribute as Attributes
use dbms.Common.Attribute.Catalog.{IsStorable, reread, attribute-stored}
use dbms.Common.Relation.{Relation, add_attribute}
use dbms.Common.Relation.Loading.{load_attributes}
use dbms.Storage.{Store, Database, get_relation, read_attributes}
use dbms.Storage.Catalog.{IsConsistent}
use dbms.Storage.Restart.{in_use, Aligned}

abbrev pub IsAttributeRow : Allocator → Attribute → Bytes → Type 0
IsAttributeRow m a value = IsStorable a × (in_use (Attributes.to_tuple m a) ≡ some value)

abbrev pub HoldsAttributes : Allocator → Database → List Attribute → Type 0
HoldsAttributes m = Aligned (IsAttributeRow m)

from_tuple-row :
    (m : Allocator) (a : Attribute) (value : Bytes)
    → IsStorable a
    → in_use (Attributes.to_tuple m a) ≡ some value
    → Attributes.from_tuple new_attribute value ≡ some (reread a new_attribute)
from_tuple-row m a value v h =
    let (tuple, e, f) = attribute-stored m a new_attribute v in
    subst
      (λ (o : Option Bytes).
        (o >>= Attributes.from_tuple new_attribute) ≡ some (reread a new_attribute))
      (sym (ap in_use e) ∙ h) f

-- the rows of one relation, as they are read
abbrev pub rows_of : ℕ → List Attribute → List Attribute
rows_of relid [] = []
rows_of relid (a ∷ rows) =
    if a.relation_id == relid
    then reread a new_attribute ∷ rows_of relid rows
    else rows_of relid rows

get_elem?-length :
    (xs : List Relation) (i : ℕ) (x : Relation) → get_elem? xs i ≡ some x → i < length xs
get_elem?-length [] i x h = absurd (ground (arith, h))
get_elem?-length (y ∷ xs) zero x h = omega arith
get_elem?-length (y ∷ xs) (suc i) x h = omega (arith, get_elem?-length xs i x h)

add_attribute-keeps :
    (r : Relation) (a : Attribute)
    → ((add_attribute r a false).0.name ≡ r.name)
      × ((add_attribute r a false).0.relation_id ≡ r.relation_id)
unfolding add_attribute
add_attribute-keeps r a = (refl, refl)

abbrev name_in : Option Relation → Bytes
name_in none = []
name_in (some r) = r.name

abbrev pub id_in : Option Relation → ℕ
id_in none = 0
id_in (some r) = r.relation_id

abbrev replaced : Store → ℕ → Relation → Store
replaced s i x = record s { all_relations = set s.all_relations i x }

-- a relation replaced by one with the same name and identifier
module _ (s : Store) (i : ℕ) (r x : Relation) (c : IsConsistent s)
    (there : get_elem? s.all_relations i ≡ some r) (name : x.name ≡ r.name)
    (id : x.relation_id ≡ r.relation_id) where
  at : get_elem? (replaced s i x).all_relations i ≡ some x
  at = get_elem?-set_self s.all_relations i x (get_elem?-length s.all_relations i r there)

  -- what stands at a position now, and stood there before
  replaced-at :
      (j : ℕ) (y : Relation)
      → get_elem? s.all_relations j ≡ some y
      → (z : Relation) × (get_elem? (replaced s i x).all_relations j ≡ some z)
        × (z.name ≡ y.name)
        × (z.relation_id ≡ y.relation_id)
  replaced-at j y h = elim (Bool-cases (i == j)) [
    | inl e ↦
        let same : i ≡ j = (==_iff i j).0 e in
        let y_is_r : some y ≡ some r = sym h ∙ rw (sym same) there in
        (
          x,
          subst (λ k. get_elem? (replaced s i x).all_relations k ≡ some x) same at,
          name ∙ sym (ap name_in y_is_r),
          id ∙ sym (ap id_in y_is_r),
        )
    | inr e ↦ (
      y,
      get_elem?-set_ne s.all_relations i j x (λ q. absurd (ground (arith, e, q))) ∙ h,
      refl,
      refl,
    )
  ]

  replaced-IsConsistent : IsConsistent (replaced s i x)
  replaced-IsConsistent = record {
    by_name = λ n j h.
        let (y, g, e, f) = c.by_name n j h in
        let (z, g', e', f') = replaced-at j y g in (z, g', e' ∙ e, rw f' f);
    by_id = λ n j h.
        let (y, g, e, f) = c.by_id n j h in
        let (z, g', e', f') = replaced-at j y g in (z, g', f' ∙ e, rw e' f);
  }

-- the row of an attribute read into the relation it belongs to
abbrev with_row : Attribute → Relation → Relation
with_row a r = if a.relation_id == r.relation_id then (add_attribute r a false).0 else r

foreign_id :
    (id other i j : ℕ) (ids : StdMap ℕ ℕ)
    → find id ids ≡ some i
    → find other ids ≡ some j
    → (i == j) ≡ false
    → (id == other) ≡ false
foreign_id id other i j ids h f q = elim (Bool-cases (id == other)) [
  | inl t ↦
      let e : find id ids ≡ some j =
        subst (λ k. find k ids ≡ some j) (sym ((==_iff id other).0 t)) f in
      absurd (ground (arith, q, h, e))
  | inr t ↦ t
]

get_relation-replaced :
    (s : Store) (i : ℕ) (r : Relation) (a : Attribute) (name : Bytes)
    → IsConsistent s
    → find a.relation_id s.id_rel_map ≡ some i
    → get_elem? s.all_relations i ≡ some r
    → get_relation name (replaced s i (add_attribute r a false).0)
      ≡ Option.map (with_row a) (get_relation name s)
unfolding get_relation
get_relation-replaced s i r a name c h there = elim (Option-cases (find name s.name_rel_map)) [
  | inl n ↦ rw (n, ◌>>=◌) refl
  | inr (j, n) ↦
      let (y, g, e, f) = c.by_name name j n in
      let (o, k, l, _) = c.by_id a.relation_id i h in
      elim (Bool-cases (i == j)) [
        | inl q ↦
            let x = (add_attribute r a false).0 in
            let ij = (==_iff i j).0 q in
            let at_j : get_elem? s.all_relations j ≡ some r =
              subst (λ k. get_elem? s.all_relations k ≡ some r) ij there in
            let set_j : get_elem? (set s.all_relations i x) j ≡ some x =
              subst (λ k. get_elem? (set s.all_relations i x) k ≡ some x) ij
                (get_elem?-set_self s.all_relations i x
                  (get_elem?-length s.all_relations i r there)) in
            let mine : (a.relation_id == r.relation_id) ≡ true =
              ground (arith, l, ap id_in (sym k ∙ there)) in
            rw (n, ◌>>=◌) (set_j ∙ sym (rw at_j (rw mine refl)))
        | inr q ↦
            let x = (add_attribute r a false).0 in
            let foreign = foreign_id a.relation_id y.relation_id i j s.id_rel_map h f q in
            rw (n, ◌>>=◌)
              (get_elem?-set_ne s.all_relations i j x (λ p. absurd (ground (arith, q, p)))
                ∙ g
                ∙ sym (rw g (rw foreign refl)))
      ]
]

map-map :
    (f g k : Relation → Relation) (o : Option Relation)
    → ((r : Relation) → g (f r) ≡ k r)
    → Option.map g (Option.map f o) ≡ Option.map k o
map-map f g k none h = refl
map-map f g k (some r) h = ap some (h r)

-- the rows of its attributes read into a relation
abbrev pub loaded : List Attribute → Relation → Relation
loaded rows r = load_attributes r (rows_of r.relation_id rows)

loaded-with_row :
    (a : Attribute) (rows : List Attribute) (r : Relation)
    → loaded rows (with_row (reread a new_attribute) r) ≡ loaded (a ∷ rows) r
unfolding load_attributes
loaded-with_row a rows r = elim (Bool-cases (a.relation_id == r.relation_id)) [
  | inl e ↦ rw (e, (add_attribute-keeps r (reread a new_attribute)).1) refl
  | inr e ↦ rw e refl
]

loaded-nothing : (o : Option Relation) → o ≡ Option.map (loaded []) o
unfolding load_attributes
loaded-nothing none = refl
loaded-nothing (some r) = refl

-- the relation that an attribute belongs to is there
abbrev pub HasRelation : Store → Attribute → Type 0
HasRelation s a = (i : ℕ) × (find a.relation_id s.id_rel_map ≡ some i)

pub read_attributes-loads :
    (m : Allocator) (db : Database) (rows : List Attribute) (s : Store)
    → HoldsAttributes m db rows
    → Every (HasRelation s) rows
    → IsConsistent s
    → (s' : Store) × (read_attributes db s ≡ some s')
      × IsConsistent s'
      × ((name : Bytes) → get_relation name s' ≡ Option.map (loaded rows) (get_relation name s))
unfolding read_attributes
read_attributes-loads m [] [] s h k c = (s, refl, c, λ name. loaded-nothing (get_relation name s))
read_attributes-loads m [] (a ∷ rows) s h k c = absurd h
read_attributes-loads m ((key, value) ∷ db) [] s h k c = absurd h
read_attributes-loads m ((key, value) ∷ db) (a ∷ rows) s ((v, w), h) ((i, f), k) c =
    let b = reread a new_attribute in
    let (r, g, e, f') = c.by_id a.relation_id i f in
    let x = (add_attribute r b false).0 in
    let (n, d) = add_attribute-keeps r b in
    let (s', e', c', p) =
      read_attributes-loads m db rows (replaced s i x) h k
        (replaced-IsConsistent s i r x c g n d) in
    (
      s',
      rw (read_attributes, from_tuple-row m a value v w, ◌>>=◌) (rw (f, ◌>>=◌) (rw (g, ◌>>=◌) e')),
      c',
      λ name.
          p name
          ∙ ap (Option.map (loaded rows)) (get_relation-replaced s i r b name c f g)
          ∙ map-map (with_row b) (loaded rows) (loaded (a ∷ rows)) (get_relation name s)
              (loaded-with_row a rows),
    )
