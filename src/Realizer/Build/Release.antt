-- ===== src/Realizer/Build/Release.antt =====
-- The iterators that `Build` takes from the storage, and `~QueryRealizer` gives back.
use dbms.Prelude.{
  ℕ, ◌≡◌, refl, ap, subst, Option, none, some, List, [], ◌∷◌, Bytes, arith, Option-cases, inl, inr,
  get_elem?,
}
use dbms.Prelude.Maps.{StdMap, find, size, bytes_key, nat_key}
use dbms.Common.Memory.{◌>>=◌}
use dbms.Common.Define.{State}
use dbms.Common.Attribute.{Attribute}
use dbms.Common.Relation.{Relation}
use dbms.Common.Row.{new_row}
use dbms.Executor.Plan.{Exec}
use dbms.Storage.{HandlerMap}
use dbms.Storage.Handlers.{IsCounted, references}
use dbms.Realizer.{
  Expression, column_reference, const_value, operation, TableFactor, table_reference, join_clause,
  SelectStmt, SlotReference, Names, name_of,
}
use dbms.Realizer.Build.Owed.{Owes, count, Owes-push, release-Owes}
use dbms.Realizer.Build.{
  Plan, build_table_scan, build_join, build_boolean, new_join, project_columns, project_attributes,
  project_relations, build_projection, build_where, build, release,
}

abbrev PlanOwes : HandlerMap → Plan → Type 0
PlanOwes before plan = Owes before plan.all_iter plan.iterator_handler_map

-- the plan that a function returns, if it does
abbrev Owing {ℓ} : {A : Type ℓ} → HandlerMap → Option (A × Plan) → Type 0
Owing before none = Unit
Owing before (some (a, plan)) = PlanOwes before plan

Owing-bind {ℓ κ} :
    {A : Type ℓ} {B : Type κ} (before : HandlerMap) (o : Option A) (f : A → Option (B × Plan))
    → ((a : A) → Owing before (f a))
    → Owing before (o >>= f)
Owing-bind before none f h = tt
Owing-bind before (some a) f h = h a

Owing-then {ℓ κ} :
    {A : Type ℓ} {B : Type κ} (before : HandlerMap) (o : Option (A × Plan))
    (f : A × Plan → Option (B × Plan))
    → Owing before o
    → ((r : A × Plan) → PlanOwes before r.1 → Owing before (f r))
    → Owing before (o >>= f)
Owing-then before none f k h = tt
Owing-then before (some r) f k h = h r k

build_join-Owing :
    (before : HandlerMap) (unset : ℕ) (s : Names) (factor : TableFactor) (plan : Plan)
    → PlanOwes before plan
    → Owing before (build_join unset s factor plan)
unfolding build_join build_table_scan
build_join-Owing before unset s (table_reference table alias) plan o =
    Owing-bind before (s.catalog table) _ λ rel.
      Owing-bind before (find (name_of alias table) s.name2relation) _
        λ relation. Owes-push before plan.iterator_handler_map plan.all_iter rel.relation_id o
build_join-Owing before unset s (join_clause left right predicate) plan o =
    Owing-then before (build_join unset s left plan) _ (build_join-Owing before unset s left plan o)
      λ l ol.
        Owing-then before (build_join unset s right l.1) _
          (build_join-Owing before unset s right l.1 ol)
          λ r or. Owing-bind before (build_boolean s.name2slot predicate) _ λ p.
            Owing-bind before (new_join (new_row (size s.name2relation)) l.0 r.0 p) _ λ join. or

project_columns-Owing :
    (before : HandlerMap) (slots : StdMap ℕ SlotReference) (es : List Expression) (plan : Plan)
    → PlanOwes before plan
    → Owing before (project_columns slots es plan)
unfolding project_columns
project_columns-Owing before slots [] plan o = o
project_columns-Owing before slots (column_reference ref table column ∷ rest) plan o =
    elim (Option-cases (find ref slots)) [
      | inl e ↦ rw (project_columns, e) o
      | inr (slot, e) ↦
          rw (project_columns, e)
            (Owing-bind before (get_elem? plan.all_tuple_desc slot.tuple_index) _ λ row_desc.
              Owing-bind before (get_elem? row_desc slot.slot_index) _
                λ column_desc. project_columns-Owing before slots rest _ o)
    ]
project_columns-Owing before slots (const_value v ∷ rest) plan o =
    project_columns-Owing before slots rest plan o
project_columns-Owing before slots (operation op left right ∷ rest) plan o =
    project_columns-Owing before slots rest plan o

-- the plan that the loops for `SELECT *` return
abbrev Alone : HandlerMap → Option Plan → Type 0
Alone before none = Unit
Alone before (some plan) = PlanOwes before plan

Alone-bind {ℓ} :
    {A : Type ℓ} (before : HandlerMap) (o : Option A) (f : A → Option Plan)
    → ((a : A) → Alone before (f a))
    → Alone before (o >>= f)
Alone-bind before none f h = tt
Alone-bind before (some a) f h = h a

Alone-then :
    (before : HandlerMap) (o : Option Plan) (f : Plan → Option Plan)
    → Alone before o
    → ((plan : Plan) → PlanOwes before plan → Alone before (f plan))
    → Alone before (o >>= f)
Alone-then before none f k h = tt
Alone-then before (some plan) f k h = h plan k

Owing-before {ℓ} :
    {A : Type ℓ} (before : HandlerMap) (o : Option Plan) (f : Plan → Option (A × Plan))
    → Alone before o
    → ((plan : Plan) → PlanOwes before plan → Owing before (f plan))
    → Owing before (o >>= f)
Owing-before before none f k h = tt
Owing-before before (some plan) f k h = h plan k

project_attributes-Alone :
    (before : HandlerMap) (i : ℕ) (attributes : List Attribute) (plan : Plan)
    → PlanOwes before plan
    → Alone before (project_attributes i attributes plan)
unfolding project_attributes
project_attributes-Alone before i [] plan o = o
project_attributes-Alone before i (a ∷ rest) plan o =
    Alone-bind before (get_elem? plan.all_tuple_desc i) _ λ row_desc.
      Alone-bind before (get_elem? row_desc a.attribute_index) _
        λ column_desc. project_attributes-Alone before i rest _ o

project_relations-Alone :
    (before : HandlerMap) (indexes : StdMap Bytes ℕ) (relations : StdMap Bytes Relation)
    (plan : Plan)
    → PlanOwes before plan
    → Alone before (project_relations indexes relations plan)
unfolding project_relations
project_relations-Alone before indexes [] plan o = o
project_relations-Alone before indexes ((name, relation) ∷ rest) plan o =
    Alone-bind before (find name indexes) _ λ i.
      Alone-then before (project_attributes i relation.attributes plan) _
        (project_attributes-Alone before i relation.attributes plan o)
        (project_relations-Alone before indexes rest)

build_projection-Owing :
    (before : HandlerMap) (s : Names) (select_list : List Expression) (top : Exec) (plan : Plan)
    → PlanOwes before plan
    → Owing before (build_projection s select_list top plan)
unfolding build_projection
build_projection-Owing before s [] top plan o =
    Owing-before before (project_relations s.name2tuple_index s.name2relation plan) _
      (project_relations-Alone before s.name2tuple_index s.name2relation plan o) λ plan' o'. o'
build_projection-Owing before s (e ∷ select_list) top plan o =
    Owing-then before (project_columns s.name2slot (e ∷ select_list) plan) _
      (project_columns-Owing before s.name2slot (e ∷ select_list) plan o) λ r o'. o'

-- the plan and the storage that `Build` leaves, whatever state it returns
abbrev BuildOwes : HandlerMap → Option (State × Option Exec × Plan) → Type 0
BuildOwes before none = Unit
BuildOwes before (some (state, e, plan)) = PlanOwes before plan

BuildOwes-then {ℓ} :
    {A : Type ℓ} (before : HandlerMap) (o : Option (A × Plan))
    (f : A × Plan → Option (State × Option Exec × Plan))
    → Owing before o
    → ((r : A × Plan) → PlanOwes before r.1 → BuildOwes before (f r))
    → BuildOwes before (o >>= f)
BuildOwes-then before none f k h = tt
BuildOwes-then before (some r) f k h = h r k

BuildOwes-bind {ℓ} :
    {A : Type ℓ} (before : HandlerMap) (o : Option A) (f : A → Option (State × Option Exec × Plan))
    → ((a : A) → BuildOwes before (f a))
    → BuildOwes before (o >>= f)
BuildOwes-bind before none f h = tt
BuildOwes-bind before (some a) f h = h a

build-BuildOwes :
    (before : HandlerMap) (unset : ℕ) (s : Names) (q : SelectStmt) (plan : Plan)
    (tables : List TableFactor)
    → q.table_reference ≡ tables
    → PlanOwes before plan
    → BuildOwes before (build unset s q plan)
unfolding build
build-BuildOwes before unset s q plan [] h o = rw (build, h) o
build-BuildOwes before unset s q plan (factor ∷ rest) h o =
    rw (build, h)
      (BuildOwes-then before (build_join unset s factor plan) _
        (build_join-Owing before unset s factor plan o)
        λ joined oj. elim (Option-cases (joined.0)) [
          | inl e ↦ rw e oj
          | inr (top, e) ↦ rw e (
              BuildOwes-bind before (build_where s q.opt_where top) _ λ selected.
                elim (Option-cases selected) [
                  | inl f ↦ rw f oj
                  | inr (top', f) ↦ rw f (
                      BuildOwes-then before (build_projection s q.select_list top' joined.1) _
                        (build_projection-Owing before s q.select_list top' joined.1 oj)
                        λ projected op. elim (Option-cases (projected.0)) [
                          | inl g ↦ rw g op
                          | inr (exec, g) ↦ rw g op
                        ])
                ])
        ])

-- Whatever state the plan of a query is built to, the destructor can give back every iterator that
-- was taken, and the storage then has the same references to the iterators of each table as before,
-- and keeps none without references.
pub build-release :
    (unset : ℕ) (s : Names) (q : SelectStmt) (plan plan' : Plan) (state : State) (e : Option Exec)
    → plan.all_iter ≡ []
    → IsCounted plan.iterator_handler_map
    → build unset s q plan ≡ some (state, e, plan')
    → (rest : HandlerMap) × (release plan'.all_iter plan'.iterator_handler_map ≡ some rest)
      × IsCounted rest
      × ((relid : ℕ) → references relid rest ≡ references relid plan.iterator_handler_map)
build-release unset s q plan plan' state e none_taken counted built =
    let before = plan.iterator_handler_map in
    let start : PlanOwes before plan = record {
      counted = counted;
      owed = λ relid. ground (arith, ap (count relid) none_taken);
    } in
    let owes =
      subst (BuildOwes before) built
        (build-BuildOwes before unset s q plan q.table_reference refl start) in
    let (rest, f, o) = release-Owes before plan'.iterator_handler_map plan'.all_iter owes in
    (rest, f, o.counted, λ relid. ground (arith, o.owed relid))
