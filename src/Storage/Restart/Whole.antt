-- ===== src/Storage/Restart/Whole.antt =====
-- `ReadSystemTable` as a whole, on a catalog that is empty.
use dbms.Prelude.{
  Every, Every-map, Option, ◌≡◌, refl, sym, ap, ◌∙◌, ◌⊎◌, none, some, List, [], ◌∷◌, arith, Bytes,
  bytes_eq, bytes_eq_iff, Bool-cases, if◌then◌else◌, inl, inr, get_elem?, subst, Option-cases,
}
use mathlib.Core.Option
use dbms.Prelude.Maps.{find, nat_key, bytes_key}
use dbms.Common.Memory.{Allocator, ◌>>=◌}
use dbms.Common.Attribute.{Attribute}
use dbms.Common.Relation.{Relation}
use dbms.Storage.{Store, Database, get_relation, read_system_table}
use dbms.Storage.Start.{opened}
use dbms.Storage.Catalog.{IsConsistent}
use dbms.Storage.Restart.{
  HoldsRelations, AllApart, IsOther, IsFound, IsFree, bare, read_relations-IsFound,
}
use dbms.Storage.Restart.Attributes.{
  HoldsAttributes, HasRelation, id_in, loaded, read_attributes-loads,
}

opened-IsConsistent : (relations attributes : Database) → IsConsistent (opened relations attributes)
unfolding find
opened-IsConsistent relations attributes = record {
  by_name = λ name i h. absurd (ground (arith, h));
  by_id = λ id i h. absurd (ground (arith, h));
}

opened-IsFree :
    (relations attributes : Database) (rs : List Relation)
    → Every (IsFree (opened relations attributes)) rs
unfolding find
opened-IsFree relations attributes [] = tt
opened-IsFree relations attributes (r ∷ rs) = ((refl, refl), opened-IsFree relations attributes rs)

nothing-opened :
    (relations attributes : Database) (name : Bytes)
    → get_relation name (opened relations attributes) ≡ none
unfolding get_relation find
nothing-opened relations attributes name = refl

-- An attribute is one of these relations'.
abbrev pub IsOf : List Relation → Attribute → Type 0
IsOf [] a = ⊥
IsOf (r ∷ rs) a = (r.relation_id ≡ a.relation_id) ⊎ IsOf rs a

found-HasRelation :
    (s : Store) (r : Relation) (a : Attribute)
    → IsConsistent s
    → IsFound s r
    → r.relation_id ≡ a.relation_id
    → HasRelation s a
unfolding get_relation
found-HasRelation s r a c f e = elim (Option-cases (find r.name s.name_rel_map)) [
  | inl n ↦ absurd (ground (arith, n, f))
  | inr (i, n) ↦
      let (y, g, _, h) = c.by_name r.name i n in
      let f' : get_elem? s.all_relations i ≡ some (bare r) = sym (rw (n, ◌>>=◌) refl) ∙ f in
      let same : y.relation_id ≡ a.relation_id = ap id_in (sym g ∙ f') ∙ e in
      (i, subst (λ k. find k s.id_rel_map ≡ some i) same h)
]

IsOf-HasRelation :
    (s : Store) (rs : List Relation) (a : Attribute)
    → IsConsistent s
    → Every (IsFound s) rs
    → IsOf rs a
    → HasRelation s a
IsOf-HasRelation s [] a c f o = absurd o
IsOf-HasRelation s (r ∷ rs) a c (f, fs) (inl e) = found-HasRelation s r a c f e
IsOf-HasRelation s (r ∷ rs) a c (f, fs) (inr o) = IsOf-HasRelation s rs a c fs o

-- the relation with a name, with the rows of its attributes read into it
abbrev pub listed : List Attribute → Bytes → List Relation → Option Relation
listed rows name [] = none
listed rows name (r ∷ rs) =
    if bytes_eq r.name name then some (loaded rows (bare r)) else listed rows name rs

get_relation-listed :
    (s : Store) (rows : List Attribute) (name : Bytes) (rs : List Relation)
    → Every (λ r. get_relation r.name s ≡ some (loaded rows (bare r))) rs
    → (Every (IsOther name) rs → get_relation name s ≡ none)
    → get_relation name s ≡ listed rows name rs
get_relation-listed s rows name [] found others = others tt
get_relation-listed s rows name (r ∷ rs) (f, found) others =
    elim (Bool-cases (bytes_eq r.name name)) [
      | inl e ↦ rw e (
          subst (λ n. get_relation n s ≡ some (loaded rows (bare r)))
            ((bytes_eq_iff r.name name).0 e) f)
      | inr e ↦ rw e (get_relation-listed s rows name rs found λ o. others (e, o))
    ]

-- Where the two databases hold the rows of relations with different names and identifiers, and of
-- attributes of these relations, `ReadSystemTable` succeeds and leaves a consistent catalog. For
-- every name, `GetRelation` then finds the relation of this name, with its identifier and with the
-- rows of its attributes read in their order, or nothing where no relation has the name.
pub read_system_table-Reloads :
    (m : Allocator) (relations attributes : Database) (rs : List Relation) (rows : List Attribute)
    → HoldsRelations m relations rs
    → HoldsAttributes m attributes rows
    → AllApart rs
    → Every (IsOf rs) rows
    → (s : Store) × (read_system_table (opened relations attributes) ≡ some s)
      × IsConsistent s
      × ((name : Bytes) → get_relation name s ≡ listed rows name rs)
unfolding read_system_table
read_system_table-Reloads m relations attributes rs rows h k apart of =
    let start = opened relations attributes in
    let (s, e, c, found, others, same) =
      read_relations-IsFound m relations rs start h apart (opened-IsConsistent relations attributes)
        (opened-IsFree relations attributes rs) in
    let has = Every-map (IsOf rs) (HasRelation s) rows (λ a. IsOf-HasRelation s rs a c found) of in
    let (s', e', c', p) = read_attributes-loads m attributes rows s k has c in
    (
      s',
      rw (e, ◌>>=◌) (rw same e'),
      c',
      λ name.
          get_relation-listed s' rows name rs
            (Every-map (IsFound s) (λ r. get_relation r.name s' ≡ some (loaded rows (bare r))) rs
              (λ r f. p r.name ∙ ap (Option.map (loaded rows)) f) found)
            λ o.
              p name
              ∙ ap (Option.map (loaded rows))
                  (others name o ∙ nothing-opened relations attributes name),
    )
