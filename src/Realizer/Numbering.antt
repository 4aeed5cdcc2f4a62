-- ===== src/Realizer/Numbering.antt =====
-- `CheckTableFactor` numbers the tables of a query from left to right.
use dbms.Prelude.{
  ℕ, zero, suc, ◌<◌, ◌≡◌, refl, sym, ap, ◌∙◌, subst, Option, none, some, List, [], ◌∷◌, ◌++◌, Bytes,
  arith, length, length-append, get_elem?, ◌⊎◌, Option-cases, inl, inr,
}
use dbms.Prelude.Maps.{
  StdMap, find, insert, size, bytes_key, nat_key, find-insert_cases, find-insert_self,
  find-insert_old, size-insert,
}
use mathlib.Core.List.{append_assoc}
use dbms.Common.Relation.{Relation}
use dbms.Common.Memory.{◌>>=◌}
use dbms.Common.Define.{State, ok}
use dbms.Realizer.{
  Names, ClauseType, TableFactor, table_reference, join_clause, check_expression,
  check_table_factor, name_of, go_on,
}
use dbms.Realizer.Kept.{Keeps, check_expression-Keeps}

-- The tables that are known are those named, numbered in this order.
pub record IsNumbered (names : List Bytes) (s : Names) : Type 0 where
  pub size_is : size s.name2tuple_index ≡ length names
  pub found :
      (k : ℕ) (name : Bytes) → get_elem? names k ≡ some name → find name s.name2tuple_index ≡ some k
  pub only :
      (name : Bytes) (k : ℕ) → find name s.name2tuple_index ≡ some k → get_elem? names k ≡ some name

-- No name stands twice.
abbrev pub NoRepeat : List Bytes → Type 0
NoRepeat names =
    (i j : ℕ) (name : Bytes) → get_elem? names i ≡ some name → get_elem? names j ≡ some name → i ≡ j

IsNumbered-same :
    (names : List Bytes) (s t : Names)
    → t.name2tuple_index ≡ s.name2tuple_index
    → IsNumbered names s
    → IsNumbered names t
IsNumbered-same names s t e n = record {
  size_is = ap size e ∙ n.size_is;
  found = λ k name g. ap (find name) e ∙ n.found k name g;
  only = λ name k f. n.only name k (ap (find name) (sym e) ∙ f);
}

get_elem?-snoc :
    (xs : List Bytes) (x y : Bytes) (k : ℕ)
    → get_elem? (xs ++ x ∷ []) k ≡ some y
    → ((k ≡ length xs) × (x ≡ y)) ⊎ (get_elem? xs k ≡ some y)
get_elem?-snoc [] x y zero h = ground (arith, h)
get_elem?-snoc [] x y (suc k) h = ground (arith, h)
get_elem?-snoc (z ∷ xs) x y zero h = inr h
get_elem?-snoc (z ∷ xs) x y (suc k) h = ground (arith, get_elem?-snoc xs x y k h)

get_elem?-snoc_old :
    (xs : List Bytes) (x y : Bytes) (k : ℕ)
    → get_elem? xs k ≡ some y
    → get_elem? (xs ++ x ∷ []) k ≡ some y
get_elem?-snoc_old [] x y k h = ground (arith, h)
get_elem?-snoc_old (z ∷ xs) x y zero h = h
get_elem?-snoc_old (z ∷ xs) x y (suc k) h = get_elem?-snoc_old xs x y k h

get_elem?-snoc_last : (xs : List Bytes) (x : Bytes) → get_elem? (xs ++ x ∷ []) (length xs) ≡ some x
get_elem?-snoc_last [] x = refl
get_elem?-snoc_last (z ∷ xs) x = get_elem?-snoc_last xs x

lt-get_elem? : (xs : List Bytes) (k : ℕ) (x : Bytes) → get_elem? xs k ≡ some x → k < length xs
lt-get_elem? [] k x h = absurd (ground (arith, h))
lt-get_elem? (z ∷ xs) zero x h = omega arith
lt-get_elem? (z ∷ xs) (suc k) x h = omega (arith, lt-get_elem? xs k x h)

get_elem?-append_left :
    (xs ys : List Bytes) (x : Bytes) (k : ℕ)
    → get_elem? xs k ≡ some x
    → get_elem? (xs ++ ys) k ≡ some x
get_elem?-append_left [] ys x k h = ground (arith, h)
get_elem?-append_left (z ∷ xs) ys x zero h = h
get_elem?-append_left (z ∷ xs) ys x (suc k) h = get_elem?-append_left xs ys x k h

NoRepeat-prefix : (xs ys : List Bytes) → NoRepeat (xs ++ ys) → NoRepeat xs
NoRepeat-prefix xs ys n i j x f g =
    n i j x (get_elem?-append_left xs ys x i f) (get_elem?-append_left xs ys x j g)

-- a name that would not repeat is not there
IsNumbered-new :
    (names : List Bytes) (name : Bytes) (s : Names)
    → IsNumbered names s
    → NoRepeat (names ++ name ∷ [])
    → find name s.name2tuple_index ≡ none
IsNumbered-new names name s n r = elim (Option-cases (find name s.name2tuple_index)) [
  | inl e ↦ e
  | inr (k, e) ↦
      let g = n.only name k e in
      let same =
        r k (length names) name (get_elem?-snoc_old names name name k g)
          (get_elem?-snoc_last names name) in
      absurd (omega (arith, lt-get_elem? names k name g, same))
]

IsNumbered-insert :
    (names : List Bytes) (name : Bytes) (s t : Names)
    → IsNumbered names s
    → find name s.name2tuple_index ≡ none
    → t.name2tuple_index ≡ insert name (size s.name2tuple_index) s.name2tuple_index
    → IsNumbered (names ++ name ∷ []) t
IsNumbered-insert names name s t n e same =
    let map = s.name2tuple_index in
    record {
      size_is =
          ap size same
          ∙ size-insert name (size map) map e
          ∙ omega (arith, n.size_is, length-append {0} names (name ∷ []));
      found = λ k x g. ap (find x) same ∙ elim (get_elem?-snoc names name x k g) [
        | inl (i, x') ↦
            subst (λ y. find y (insert name (size map) map) ≡ some k) x'
              (subst (λ j. find name (insert name (size map) map) ≡ some j) (n.size_is ∙ sym i)
                (find-insert_self name (size map) map e))
        | inr old ↦ find-insert_old name x (size map) k map e (n.found k x old)
      ];
      only = λ x k f.
          elim (find-insert_cases name x (size map) k map e (ap (find x) (sym same) ∙ f)) [
            | inl (x', i) ↦
                subst (λ y. get_elem? (names ++ name ∷ []) k ≡ some y) x'
                  (subst (λ j. get_elem? (names ++ name ∷ []) j ≡ some name) (sym n.size_is ∙ i)
                    (get_elem?-snoc_last names name))
            | inr old ↦ get_elem?-snoc_old names name x k (n.only x k old)
          ];
    }

-- a check that succeeds went through both
then-ok :
    (r : Option (State × Names)) (next : Names → Option (State × Names)) (s : Names)
    → r >>= (λ p. go_on p.0 next p.1) ≡ some (ok, s)
    → (t : Names) × (r ≡ some (ok, t)) × (next t ≡ some (ok, s))
then-ok none next s h = absurd (ground (arith, h))
then-ok (some (ok, t)) next s h = (t, refl, h)
then-ok (some (state, t)) next s h = absurd (ground (arith, h))

-- the names of the tables, from left to right
abbrev pub table_names : TableFactor → List Bytes
table_names (table_reference table alias) = name_of alias table ∷ []
table_names (join_clause left right predicate) = table_names left ++ table_names right

abbrev indexes : Option (State × Names) → StdMap Bytes ℕ
indexes none = []
indexes (some (state, s)) = s.name2tuple_index

indexes-reference :
    (table alias : Bytes) (rel : Relation) (s s' : Names)
    → s.catalog table ≡ some rel
    → check_table_factor (table_reference table alias) s ≡ some (ok, s')
    → s'.name2tuple_index
      ≡ insert (name_of alias table) (size s.name2tuple_index) s.name2tuple_index
unfolding check_table_factor
indexes-reference table alias rel s s' e h = ap indexes (rw (check_table_factor, e) at (sym h))

-- A table factor that passes the check has its tables numbered from left to right, after the tables
-- that were there, if no name stands twice.
pub check_table_factor-IsNumbered :
    (factor : TableFactor) (names : List Bytes) (s s' : Names)
    → IsNumbered names s
    → NoRepeat (names ++ table_names factor)
    → check_table_factor factor s ≡ some (ok, s')
    → IsNumbered (names ++ table_names factor) s'
unfolding check_table_factor
check_table_factor-IsNumbered (table_reference table alias) names s s' n r h =
    elim (Option-cases (s.catalog table)) [
      | inl e ↦ absurd (ground (arith, e, h))
      | inr (rel, e) ↦
          IsNumbered-insert names (name_of alias table) s s' n
            (IsNumbered-new names (name_of alias table) s n r)
            (indexes-reference table alias rel s s' e h)
    ]
check_table_factor-IsNumbered (join_clause left right predicate) names s s' n r h =
    let both = check_table_factor left s >>= (λ p. go_on p.0 (check_table_factor right) p.1) in
    let (t, e, h₁) = then-ok both (check_expression ClauseType.in_join_on predicate) s' h in
    let (u, f, g) = then-ok (check_table_factor left s) (check_table_factor right) t e in
    let assoc = append_assoc names (table_names left) (table_names right) in
    let r₁ = subst NoRepeat (sym assoc) r in
    let nl =
      check_table_factor-IsNumbered left names s u n
        (NoRepeat-prefix (names ++ table_names left) (table_names right) r₁) f in
    let nr = check_table_factor-IsNumbered right (names ++ table_names left) u t nl r₁ g in
    let kept = subst (Keeps t) h₁ (check_expression-Keeps ClauseType.in_join_on predicate t) in
    IsNumbered-same (names ++ (table_names left ++ table_names right)) t s' kept
      (subst (λ l. IsNumbered l t) assoc nr)
