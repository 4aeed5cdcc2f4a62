-- ===== src/Realizer/Build/Projected.antt =====
-- `BuildProjection` of the select list of a query that has passed its check.
use mathlib.Core.List.{append-nil, append_assoc}
use dbms.Prelude.{
  Every, ℕ, ◌≡◌, refl, some, List, [], ◌∷◌, ◌++◌, get_elem?, Option, none, map, sym, subst, ap, ◌∙◌,
}
use dbms.Prelude.Maps.{StdMap, find, bytes_key, nat_key}
use dbms.Common.Memory.{◌>>=◌}
use dbms.Common.Define.{ok}
use dbms.Common.Row.{RowDesc, ColumnDesc, push_column_desc}
use dbms.Executor.Expression.{ValueExpr, slot_reference}
use dbms.Realizer.{
  Names, Expression, column_reference, const_value, operation, SelectStmt, SlotReference, check,
}
use dbms.Realizer.Slots.{Known}
use dbms.Realizer.Build.{Plan, project_columns}
use dbms.Realizer.Build.Checked.{check-Known}

-- the descriptions of the scanned tables have a column for every slot
abbrev pub Covers : StdMap ℕ SlotReference → List RowDesc → Type 0
Covers slots descs =
    (ref : ℕ) (slot : SlotReference)
    → find ref slots ≡ some slot
    → (row_desc : RowDesc) × (column_desc : ColumnDesc) × (get_elem? descs slot.tuple_index
        ≡ some row_desc)
      × (get_elem? row_desc slot.slot_index ≡ some column_desc)

-- a slot, where there is one, before others
abbrev pub slot_before : Option SlotReference → List SlotReference → List SlotReference
slot_before none rest = rest
slot_before (some slot) rest = slot ∷ rest

-- the slots of the column references of a select list, in its order
abbrev pub slots_of : StdMap ℕ SlotReference → List Expression → List SlotReference
slots_of slots [] = []
slots_of slots (column_reference ref table column ∷ rest) =
    slot_before (find ref slots) (slots_of slots rest)
slots_of slots (const_value v ∷ rest) = slots_of slots rest
slots_of slots (operation op left right ∷ rest) = slots_of slots rest

abbrev pub reference_of : SlotReference → ValueExpr
reference_of slot = slot_reference slot.tuple_index slot.slot_index

-- the description of the column in a slot, of a list of tables' descriptions
abbrev pub column_of : List RowDesc → SlotReference → Option ColumnDesc
column_of descs slot = do
  row_desc ← get_elem? descs slot.tuple_index
  get_elem? row_desc slot.slot_index

-- What the projection adds to a plan: the reference to each slot, and the column in it.
abbrev pub Projects : List SlotReference → Plan → Plan → Type 0
Projects slots plan plan' =
    (columns : RowDesc) × (map some columns ≡ map (column_of plan.all_tuple_desc) slots)
    × (plan' ≡ record plan {
      projection_list = plan.projection_list ++ map reference_of slots;
      output_row_desc = plan.output_row_desc ++ columns;
    })

same_plan :
    (plan : Plan) {es fs : List ValueExpr} {cs ds : RowDesc}
    → es ≡ fs
    → cs ≡ ds
    → record plan { projection_list = es; output_row_desc = cs }
      ≡ record plan { projection_list = fs; output_row_desc = ds }
same_plan plan {es} {fs} {cs} {ds} e f =
    ap (λ l. record plan { projection_list = l; output_row_desc = cs }) e
    ∙ ap (λ l. record plan { projection_list = fs; output_row_desc = l }) f

same_cons :
    {x y : Option ColumnDesc} {l k : List (Option ColumnDesc)} → x ≡ y → l ≡ k → x ∷ l ≡ y ∷ k
same_cons {x} {y} {l} {k} e f = ap (λ z. z ∷ l) e ∙ ap (◌∷◌ y) f

columns-project :
    (slots : StdMap ℕ SlotReference) (es : List Expression) (plan : Plan)
    → Covers slots plan.all_tuple_desc
    → Every (Known slots) es
    → (plan' : Plan) × (project_columns slots es plan ≡ some (some tt, plan'))
      × Projects (slots_of slots es) plan plan'
unfolding project_columns push_column_desc
columns-project slots [] plan c k = (
  plan,
  refl,
  (
    [],
    refl,
    same_plan plan (sym (append-nil plan.projection_list)) (sym (append-nil plan.output_row_desc)),
  ),
)
columns-project slots (column_reference ref table column ∷ rest) plan c ((slot, h), k) =
    let (row_desc, column_desc, f, g) = c ref slot h in
    let next : Plan = record plan {
      projection_list = plan.projection_list ++ reference_of slot ∷ [];
      output_row_desc = push_column_desc plan.output_row_desc column_desc;
    } in
    let (plan', e, (columns, m, p)) = columns-project slots rest next c k in
    let there : column_of plan.all_tuple_desc slot ≡ some column_desc = rw (f, ◌>>=◌) g in
    let adds : Projects (slot ∷ slots_of slots rest) plan plan' = (
      column_desc ∷ columns,
      same_cons (sym there) m,
      p
          ∙ same_plan plan
              (append_assoc plan.projection_list (reference_of slot ∷ [])
                (map reference_of (slots_of slots rest)))
              (append_assoc plan.output_row_desc (column_desc ∷ []) columns),
    ) in
    (
      plan',
      rw (project_columns, h) (rw (f, ◌>>=◌) (rw (g, ◌>>=◌) e)),
      subst (λ o. Projects (slot_before o (slots_of slots rest)) plan plan') (sym h) adds,
    )
columns-project slots (const_value v ∷ rest) plan c (p, k) = columns-project slots rest plan c k
columns-project slots (operation op left right ∷ rest) plan c (p, k) =
    columns-project slots rest plan c k

pub check-project_columns :
    (q : SelectStmt) (s t : Names) (plan : Plan)
    → check q s ≡ some (ok, t)
    → Covers t.name2slot plan.all_tuple_desc
    → (plan' : Plan) × (project_columns t.name2slot q.select_list plan ≡ some (some tt, plan'))
      × Projects (slots_of t.name2slot q.select_list) plan plan'
check-project_columns q s t plan h c =
    columns-project t.name2slot q.select_list plan c ((check-Known q s t h).0.1)
