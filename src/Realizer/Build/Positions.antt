-- ===== src/Realizer/Build/Positions.antt =====
-- `CheckTableFactor` numbers the tables of a query and `BuildTableScan` the rows' tuples.
use mathlib.Core.List.{append_assoc}
use dbms.Prelude.{
  Bytes, map, ℕ, suc, ◌+◌, ◌≡◌, refl, sym, ap, ◌∙◌, Option, none, some, List, [], ◌∷◌, ◌++◌, arith,
  length, length-append, Option-cases, inl, inr,
}
use dbms.Prelude.Maps.{find, size, bytes_key}
use dbms.Common.Memory.{◌>>=◌}
use dbms.Realizer.{Names, TableFactor, table_reference, join_clause, name_of}
use dbms.Realizer.Build.{Plan, build_table_scan, build_join, build_boolean, new_join}
use dbms.Storage.{new_handler}
use dbms.Common.Relation.{Relation, to_desc}
use dbms.Common.Row.{RowDesc, TupleRow, new_row}
use dbms.Executor.Expression.{BooleanExpr}
use dbms.Executor.Plan.{Exec, seq_scan, nested_loop_join}

-- the scans of a plan of joins, from left to right: the table of each, and the tuple it writes
abbrev pub scans : Exec → List (ℕ × ℕ)
scans (seq_scan handler i) = (handler, i) ∷ []
scans (nested_loop_join left right p row l r) = scans left ++ scans right
scans _ = []

-- the tables of a table factor, from left to right, each with the name that it has in the query
abbrev pub tables : TableFactor → List (Bytes × Bytes)
tables (table_reference table alias) = (table, name_of alias table) ∷ []
tables (join_clause left right predicate) = tables left ++ tables right

-- the identifier that the catalog has for a table
abbrev pub id_of : Names → Bytes → ℕ
id_of s table = elim (s.catalog table) [ none ↦ 0 | some rel ↦ rel.relation_id ]

-- one scan for each table, into one tuple after another
abbrev pub scans_from : Names → ℕ → List (Bytes × Bytes) → List (ℕ × ℕ)
scans_from s i [] = []
scans_from s i ((table, name) ∷ rest) = (id_of s table, i) ∷ scans_from s (suc i) rest

-- the description of a relation that may be missing
abbrev pub desc_or : ℕ → Option Relation → RowDesc
desc_or unset none = []
desc_or unset (some relation) = to_desc unset relation

-- the description of the relation that has a name in the query
abbrev pub desc_of : ℕ → Names → Bytes × Bytes → RowDesc
desc_of unset s (table, name) = desc_or unset (find name s.name2relation)

add_zero : (i : ℕ) → i + 0 ≡ i
add_zero i = omega arith

add_suc : (i n : ℕ) → i + suc n ≡ suc i + n
add_suc i n = omega arith

scans_from-append :
    (s : Names) (i : ℕ) (xs ys : List (Bytes × Bytes))
    → scans_from s i xs ++ scans_from s (i + length xs) ys ≡ scans_from s i (xs ++ ys)
scans_from-append s i [] ys = ap (λ k. scans_from s k ys) (add_zero i)
scans_from-append s i ((table, name) ∷ xs) ys = ap (◌∷◌ (id_of s table, i)) (
    ap (λ k. scans_from s (suc i) xs ++ scans_from s k ys) (add_suc i (length xs))
    ∙ scans_from-append s (suc i) xs ys)

map-append :
    (f : Bytes × Bytes → RowDesc) (xs ys : List (Bytes × Bytes))
    → map f (xs ++ ys) ≡ map f xs ++ map f ys
map-append f [] ys = refl
map-append f (x ∷ xs) ys = ap (◌∷◌ (f x)) (map-append f xs ys)

length-map :
    (f : Bytes × Bytes → RowDesc) (xs : List (Bytes × Bytes)) → length (map f xs) ≡ length xs
length-map f [] = refl
length-map f (x ∷ xs) = ap suc (length-map f xs)

ap2_append : {xs ys us vs : List (ℕ × ℕ)} → xs ≡ us → ys ≡ vs → xs ++ ys ≡ us ++ vs
ap2_append {xs} {ys} {us} {vs} e f = ap (λ l. l ++ ys) e ∙ ap (◌++◌ us) f

-- the scans of a plan that was built, and the descriptions there are then
abbrev built_scans : Option (Option Exec × Plan) → List (ℕ × ℕ)
built_scans none = []
built_scans (some (none, plan)) = []
built_scans (some (some e, plan)) = scans e

abbrev built_descs : Option (Option Exec × Plan) → List RowDesc
built_descs none = []
built_descs (some (e, plan)) = plan.all_tuple_desc

abbrev option_scans : Option Exec → List (ℕ × ℕ)
option_scans none = []
option_scans (some e) = scans e

new_join-scans :
    (row : TupleRow) (l r : Option Exec) (p : Option BooleanExpr) (e : Exec)
    → new_join row l r p ≡ some e
    → (left : Exec) × (right : Exec) × (l ≡ some left)
      × (r ≡ some right)
      × (scans e ≡ scans left ++ scans right)
unfolding new_join
new_join-scans row (some left) (some right) (some p) e h =
    (left, right, refl, refl, ap option_scans (sym h))
new_join-scans row none r p e h = absurd (ground (arith, h))
new_join-scans row (some left) none p e h = absurd (ground (arith, h))
new_join-scans row (some left) (some right) none e h = absurd (ground (arith, h))

-- The plan that is built of a table factor has one scan for each table, from left to right in the
-- order of the query: each scans the table that the catalog has under its name, into the next tuple
-- that is free, and the descriptions of the tables' rows are added in the same order.
pub build_join-scans :
    (unset : ℕ) (s : Names) (factor : TableFactor) (plan plan' : Plan) (e : Exec)
    → build_join unset s factor plan ≡ some (some e, plan')
    → (scans e ≡ scans_from s (length plan.all_tuple_desc) (tables factor))
      × (plan'.all_tuple_desc ≡ plan.all_tuple_desc ++ map (desc_of unset s) (tables factor))
unfolding build_join build_table_scan
build_join-scans unset s (table_reference table alias) plan plan' e h =
    elim (Option-cases (s.catalog table)) [
      | inl f ↦ absurd (ground (arith, f, h))
      | inr (rel, f) ↦ elim (Option-cases (find (name_of alias table) s.name2relation)) [
        | inl g ↦ absurd (ground (arith, f, g, h))
        | inr (relation, g) ↦
            let plan₁ = record plan {
              iterator_handler_map = new_handler rel.relation_id plan.iterator_handler_map;
              all_iter = plan.all_iter ++ rel.relation_id ∷ [];
              all_tuple_desc = plan.all_tuple_desc ++ to_desc unset relation ∷ [];
            } in
            let made : build_join unset s (table_reference table alias) plan
                ≡ some (some (seq_scan rel.relation_id (length plan.all_tuple_desc)), plan₁) =
              rw (build_join, build_table_scan, f, ◌>>=◌) (rw (g, ◌>>=◌) refl) in
            (
              ap built_scans (sym h ∙ made) ∙ rw (f, id_of) refl,
              ap built_descs (sym h ∙ made)
                  ∙ ap (λ o. plan.all_tuple_desc ++ desc_or unset o ∷ []) (sym g),
            )
      ]
    ]
build_join-scans unset s (join_clause left right predicate) plan plan' e h =
    elim (Option-cases (build_join unset s left plan)) [
      | inl f ↦ absurd (ground (arith, f, h))
      | inr (l, f) ↦ elim (Option-cases (build_join unset s right l.1)) [
        | inl g ↦ absurd (ground (arith, f, g, h))
        | inr (r, g) ↦ elim (Option-cases (build_boolean s.name2slot predicate)) [
          | inl k ↦ absurd (ground (arith, f, g, k, h))
          | inr (p, k) ↦ elim (Option-cases (new_join (new_row (size s.name2relation)) l.0 r.0 p)) [
            | inl n ↦ absurd (ground (arith, f, g, k, n, h))
            | inr (join, n) ↦
                let made : build_join unset s (join_clause left right predicate) plan
                    ≡ some (some join, r.1) =
                  rw (build_join, f, ◌>>=◌) (rw (g, ◌>>=◌) (rw (k, ◌>>=◌) (rw (n, ◌>>=◌) refl))) in
                let (l', r', el, er, i) =
                  new_join-scans (new_row (size s.name2relation)) l.0 r.0 p join n in
                let (ls, ld) =
                  build_join-scans unset s left plan l.1 l' (f ∙ ap (λ o. some (o, l.1)) el) in
                let (rs, rd) =
                  build_join-scans unset s right l.1 r.1 r' (g ∙ ap (λ o. some (o, r.1)) er) in
                let base = plan.all_tuple_desc in
                let descs = λ (factor : TableFactor). map (desc_of unset s) (tables factor) in
                let next : length (l.1).all_tuple_desc ≡ length base + length (tables left) =
                  ap length ld
                  ∙ length-append {0} base (descs left)
                  ∙ ap (λ k. length base + k) (length-map (desc_of unset s) (tables left)) in
                (
                  ap built_scans (sym h ∙ made)
                      ∙ i
                      ∙ ap2_append ls (rs ∙ ap (λ k. scans_from s k (tables right)) next)
                      ∙ scans_from-append s (length base) (tables left) (tables right),
                  ap built_descs (sym h ∙ made)
                      ∙ rd
                      ∙ ap (λ x. x ++ descs right) ld
                      ∙ append_assoc base (descs left) (descs right)
                      ∙ ap (◌++◌ base)
                          (sym (map-append (desc_of unset s) (tables left) (tables right))),
                )
          ]
        ]
      ]
    ]
