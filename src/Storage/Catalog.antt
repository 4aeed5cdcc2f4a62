-- ===== src/Storage/Catalog.antt =====
-- The catalog in memory: what `InsertRelation` and `CreateRelation` do to the lookups.
use dbms.Prelude.{
  ℕ, zero, suc, ◌≡◌, refl, sym, subst, ◌∙◌, Option, none, some, List, [], ◌∷◌, ◌++◌, Bool, true,
  false, arith, Bytes, length, get_elem?, bytes_eq, if◌then◌else◌, Option-cases, Bool-cases, ◌&&◌,
  inl, inr,
}
use dbms.Prelude.Maps.{
  find, insert, nat_key, bytes_key, find-insert, find-insert_self, find-insert_old,
  find-insert_cases,
}
use dbms.Common.Memory.{◌>>=◌}
use dbms.Common.Relation.{Relation}
use dbms.Storage.{Store, insert_relation, get_relation}

-- The two maps lead to the same relations, each under its own name and identifier.
pub record IsConsistent (s : Store) : Type 0 where
  pub by_name :
      (name : Bytes) (i : ℕ)
      → find name s.name_rel_map ≡ some i
      → (r : Relation) × (get_elem? s.all_relations i ≡ some r)
        × (r.name ≡ name)
        × (find r.relation_id s.id_rel_map ≡ some i)
  pub by_id :
      (id i : ℕ)
      → find id s.id_rel_map ≡ some i
      → (r : Relation) × (get_elem? s.all_relations i ≡ some r)
        × (r.relation_id ≡ id)
        × (find r.name s.name_rel_map ≡ some i)

abbrev pub is_none : Option ℕ → Bool
is_none none = true
is_none (some i) = false

get_elem?-append :
    (xs : List Relation) (x r : Relation) (i : ℕ)
    → get_elem? xs i ≡ some r
    → get_elem? (xs ++ x ∷ []) i ≡ some r
get_elem?-append [] x r i h = ground arith
get_elem?-append (y ∷ xs) x r zero h = h
get_elem?-append (y ∷ xs) x r (suc i) h = get_elem?-append xs x r i h

get_elem?-append_last :
    (xs : List Relation) (x : Relation) → get_elem? (xs ++ x ∷ []) (length xs) ≡ some x
get_elem?-append_last [] x = refl
get_elem?-append_last (y ∷ xs) x = get_elem?-append_last xs x

-- the store with a relation whose name and identifier were free
abbrev inserted : Relation → Store → Store
inserted r s =
    let i = length s.all_relations in
    record s {
      name_rel_map = insert r.name i s.name_rel_map;
      id_rel_map = insert r.relation_id i s.id_rel_map;
      all_relations = s.all_relations ++ r ∷ [];
    }

inserted-IsConsistent :
    (r : Relation) (s : Store)
    → IsConsistent s
    → find r.name s.name_rel_map ≡ none
    → find r.relation_id s.id_rel_map ≡ none
    → IsConsistent (inserted r s)
inserted-IsConsistent r s c n d = record {
  by_name = λ name i h.
      elim (find-insert_cases r.name name (length s.all_relations) i s.name_rel_map n h) [
        | inl (e, f) ↦ (
          r,
          subst (λ k. get_elem? (s.all_relations ++ r ∷ []) k ≡ some r) f
              (get_elem?-append_last s.all_relations r),
          e,
          subst
              (λ k.
                find r.relation_id (insert r.relation_id (length s.all_relations) s.id_rel_map)
                ≡ some k)
              f (find-insert_self r.relation_id (length s.all_relations) s.id_rel_map d),
        )
        | inr old ↦
            let (x, g, e, f) = c.by_name name i old in
            (
              x,
              get_elem?-append s.all_relations r x i g,
              e,
              find-insert_old r.relation_id x.relation_id (length s.all_relations) i s.id_rel_map d
                  f,
            )
      ];
  by_id = λ id i h.
      elim (find-insert_cases r.relation_id id (length s.all_relations) i s.id_rel_map d h) [
        | inl (e, f) ↦ (
          r,
          subst (λ k. get_elem? (s.all_relations ++ r ∷ []) k ≡ some r) f
              (get_elem?-append_last s.all_relations r),
          e,
          subst (λ k. find r.name (insert r.name (length s.all_relations) s.name_rel_map) ≡ some k)
              f (find-insert_self r.name (length s.all_relations) s.name_rel_map n),
        )
        | inr old ↦
            let (x, g, e, f) = c.by_id id i old in
            (
              x,
              get_elem?-append s.all_relations r x i g,
              e,
              find-insert_old r.name x.name (length s.all_relations) i s.name_rel_map n f,
            )
      ];
}

-- `InsertRelation` keeps the maps consistent, whether it takes the relation or not.
pub insert_relation-IsConsistent :
    (r : Relation) (s : Store) → IsConsistent s → IsConsistent (insert_relation r s).0
unfolding insert_relation
insert_relation-IsConsistent r s c = elim (Option-cases (find r.name s.name_rel_map)) [
  | inr (i, e) ↦ rw (insert_relation, e) c
  | inl e ↦ elim (Option-cases (find r.relation_id s.id_rel_map)) [
    | inr (i, f) ↦ rw (insert_relation, e) (rw f c)
    | inl f ↦ rw (insert_relation, e) (rw f (inserted-IsConsistent r s c e f))
  ]
]

get_relation-inserted :
    (r : Relation) (s : Store) (name : Bytes)
    → IsConsistent s
    → find r.name s.name_rel_map ≡ none
    → get_relation name (inserted r s)
      ≡ (if bytes_eq r.name name then some r else get_relation name s)
unfolding get_relation
get_relation-inserted r s name c e =
    let found = find-insert r.name name (length s.all_relations) s.name_rel_map in
    elim (Bool-cases (bytes_eq r.name name)) [
      | inl t ↦ rw (found, e) (rw (t, ◌>>=◌) (get_elem?-append_last s.all_relations r))
      | inr f ↦
          rw (found, e)
            (rw f (elim (Option-cases (find name s.name_rel_map)) [
              | inl n ↦ rw (n, ◌>>=◌) refl
              | inr (i, n) ↦
                  let (x, g, o, f') = c.by_name name i n in
                  rw (n, ◌>>=◌) (get_elem?-append s.all_relations r x i g ∙ sym g)
            ]))
    ]

-- A consistent catalog takes a relation exactly if its name and its identifier are free; then
-- `GetRelation` finds it under its name, and what it finds under any other name stays the same.
pub get_relation-insert_relation :
    (r : Relation) (s : Store) (name : Bytes)
    → IsConsistent s
    → ((insert_relation r s).1
        ≡ is_none (find r.name s.name_rel_map) && is_none (find r.relation_id s.id_rel_map))
      × (get_relation name (insert_relation r s).0 ≡ (
          if (insert_relation r s).1 && bytes_eq r.name name then some r else get_relation name s))
unfolding insert_relation
get_relation-insert_relation r s name c = elim (Option-cases (find r.name s.name_rel_map)) [
  | inr (i, e) ↦ rw (insert_relation, e) (refl, refl)
  | inl e ↦ elim (Option-cases (find r.relation_id s.id_rel_map)) [
    | inr (i, f) ↦ rw (insert_relation, e) (rw f (refl, refl))
    | inl f ↦ rw (insert_relation, e) (rw f (refl, get_relation-inserted r s name c e))
  ]
]
