-- ===== src/Realizer/Resolution.antt =====
-- A column name without a table: `CheckExpressionBase` accepts it where exactly one table has it.
use dbms.Prelude.{
  ℕ, ◌≡◌, ◌↔◌, refl, sym, ◌∙◌, ap, Option, none, some, List, [], ◌∷◌, Bytes, arith, bytes_eq,
  bytes_eq_refl, bytes_eq_iff, Option-cases, Bool-cases, inl, inr,
}
use dbms.Prelude.Maps.{StdMap, find, bytes_key, Distinct}
use dbms.Common.Memory.{◌>>=◌}
use dbms.Common.Relation.{Relation, get_attribute_index}
use dbms.Realizer.{Names, owners, choose, resolve}

-- where a relation has a column
abbrev place_in : Bytes → Relation → Option (Relation × ℕ)
place_in column rel = elim (get_attribute_index rel column) [ none ↦ none | some i ↦ some (rel, i) ]

owners-find :
    (column name : Bytes) (m : StdMap Bytes Relation)
    → Distinct m
    → find {V = Relation × ℕ} name (owners column m) ≡ find name m >>= place_in column
unfolding owners find
owners-find column name [] u = refl
owners-find column name ((k, rel) ∷ m) u = ground (
  arith,
  Option-cases (get_attribute_index rel column),
  owners-find column name m u.1,
  u.0,
  bytes_eq_iff k name,
)

owners-Distinct :
    (column : Bytes) (m : StdMap Bytes Relation)
    → Distinct m
    → Distinct {V = Relation × ℕ} (owners column m)
unfolding owners
owners-Distinct column [] u = tt
owners-Distinct column ((k, rel) ∷ m) u = elim (Option-cases (get_attribute_index rel column)) [
  | inl e ↦ rw (owners, e) (owners-Distinct column m u.1)
  | inr (i, e) ↦
      rw (owners, e)
        (
          owners-find column k m u.1 ∙ ap (λ o. o >>= place_in column) u.0,
          owners-Distinct column m u.1,
        )
]

-- A table has the column at a position, and it is the only table that has it.
abbrev pub IsOwner : Bytes → Bytes → Relation → ℕ → StdMap Bytes Relation → Type 0
IsOwner column name rel i m =
    (find name m ≡ some rel)
    × (get_attribute_index rel column ≡ some i)
    × ((other : Bytes) (r : Relation) (j : ℕ)
        → find other m ≡ some r
        → get_attribute_index r column ≡ some j
        → other ≡ name)

-- The only entry of a map.
abbrev IsOnly : Bytes → Relation × ℕ → List (Bytes × (Relation × ℕ)) → Type 0
IsOnly name v os =
    (find {V = Relation × ℕ} name os ≡ some v)
    × ((other : Bytes) (w : Relation × ℕ)
        → find {V = Relation × ℕ} other os ≡ some w
        → other ≡ name)

two_keys :
    (name : Bytes) (v : Relation × ℕ) (k j : Bytes) (w x : Relation × ℕ)
    (os : List (Bytes × (Relation × ℕ)))
    → Distinct {V = Relation × ℕ} ((k, w) ∷ (j, x) ∷ os)
    → IsOnly name v ((k, w) ∷ (j, x) ∷ os)
    → ⊥
unfolding find
two_keys name v k j w x os u h =
    let first = h.1 k w (rw (bytes_eq_refl k) refl) in
    elim (Bool-cases (bytes_eq k j)) [
      | inl e ↦ ground (arith, u.0, bytes_eq_iff k j, e, bytes_eq_iff j k)
      | inr e ↦
          let second = h.1 j x (rw (e, bytes_eq_refl j) refl) in
          ground (arith, e, (bytes_eq_iff k j).1 (first ∙ sym second))
    ]

choose-IsOnly :
    (column message name : Bytes) (v : Relation × ℕ) (os : List (Bytes × (Relation × ℕ)))
    → Distinct {V = Relation × ℕ} os
    → ((choose column message os).0 ≡ some (name, v)) ↔ IsOnly name v os
unfolding choose find
choose-IsOnly column message name v [] u =
    (λ h. absurd (ground (arith, h)), λ h. absurd (ground (arith, h.0)))
choose-IsOnly column message name v ((k, w) ∷ []) u = (
  λ h. (
    ground (arith, h, bytes_eq_iff k name),
    λ other w' e. ground (arith, h, e, bytes_eq_iff k other),
  ),
  λ h. ground (arith, h.0, bytes_eq_iff k name),
)
choose-IsOnly column message name v ((k, w) ∷ (j, x) ∷ os) u =
    (λ h. absurd (ground (arith, h)), λ h. absurd (two_keys name v k j w x os u h))

place_in-some :
    (column name : Bytes) (rel : Relation) (i : ℕ) (m : StdMap Bytes Relation)
    → find name m >>= place_in column ≡ some (rel, i)
    → (find name m ≡ some rel) × (get_attribute_index rel column ≡ some i)
place_in-some column name rel i m h = elim (Option-cases (find name m)) [
  | inl e ↦ absurd (ground (arith, e, h))
  | inr (r, e) ↦ ground (arith, e, h, Option-cases (get_attribute_index r column))
]

some-place_in :
    (column name : Bytes) (rel : Relation) (i : ℕ) (m : StdMap Bytes Relation)
    → find name m ≡ some rel
    → get_attribute_index rel column ≡ some i
    → find name m >>= place_in column ≡ some (rel, i)
some-place_in column name rel i m e f = rw (e, ◌>>=◌) (rw (place_in, f) refl)

only-IsOwner :
    (column name : Bytes) (rel : Relation) (i : ℕ) (m : StdMap Bytes Relation)
    → Distinct m
    → IsOnly name (rel, i) (owners column m)
    → IsOwner column name rel i m
only-IsOwner column name rel i m u h =
    let (e, f) = place_in-some column name rel i m (sym (owners-find column name m u) ∙ h.0) in
    (
      e,
      f,
      λ other r j e' f'.
          h.1 other (r, j) (owners-find column other m u ∙ some-place_in column other r j m e' f'),
    )

owner-IsOnly :
    (column name : Bytes) (rel : Relation) (i : ℕ) (m : StdMap Bytes Relation)
    → Distinct m
    → IsOwner column name rel i m
    → IsOnly name (rel, i) (owners column m)
owner-IsOnly column name rel i m u (e, f, only) = (
  owners-find column name m u ∙ some-place_in column name rel i m e f,
  λ other w g.
      let (e', f') =
        place_in-some column other w.0 w.1 m (sym (owners-find column other m u) ∙ g) in
      only other w.0 w.1 e' f',
)

-- A column name without a table is resolved, to a table and a position, exactly if that table has
-- the column there and every table that has a column of that name is that one.
pub resolve_unqualified :
    (column name : Bytes) (rel : Relation) (i : ℕ) (s : Names)
    → Distinct s.name2relation
    → ((resolve [] column s).0 ≡ some (name, (rel, i))) ↔ IsOwner column name rel i s.name2relation
unfolding resolve
resolve_unqualified column name rel i s u =
    let os = owners column s.name2relation in
    let (to, from) =
      choose-IsOnly column s.message name (rel, i) os (owners-Distinct column s.name2relation u) in
    (
      λ h. only-IsOwner column name rel i s.name2relation u (to h),
      λ h. from (owner-IsOnly column name rel i s.name2relation u h),
    )
