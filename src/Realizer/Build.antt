-- ===== src/Realizer/Build.antt =====
-- The `Build` functions of `QueryRealizer`: the plan of a query that was checked.
pub mod Positions
pub mod Checked
pub mod Projected
pub mod Owed
pub mod Release
pub mod Typing
use dbms.Prelude.{
  ℕ, zero, suc, ◌+◌, Option, none, some, List, [], ◌∷◌, ◌++◌, Bool, true, false, Bytes, codes,
  length, get_elem?, if◌then◌else◌, ◌==◌,
}
use dbms.Prelude.Maps.{StdMap, find, size, bytes_key, nat_key}
use dbms.Common.Memory.{◌>>=◌}
use dbms.Common.Define.{
  OperatorType, DataType, State, ok, build_error, is_compare_operator, is_logic_operator,
  dt_integer, dt_float, dt_varchar,
}
use dbms.Common.Attribute.{Attribute}
use dbms.Common.Relation.{Relation, to_desc}
use dbms.Common.Row.{RowDesc, TupleRow, new_row, push_column_desc}
use dbms.Storage.{HandlerMap, new_handler, delete_io_object}
use dbms.Executor.Expression.{
  ValueExpr, BooleanExpr, slot_reference, integer_const_value, varchar_const_value, varchar_compare,
  integer_compare, float_compare, logic_expr,
}
use dbms.Executor.Plan.{Exec, seq_scan, select, project, nested_loop_join}
use dbms.Realizer.{
  Constant, integer, varchar, Expression, column_reference, const_value, operation, TableFactor,
  table_reference, join_clause, SelectStmt, SlotReference, Names, name_of,
}

-- What `Build` changes: the message, the descriptions of the scanned tables, the tables of the
-- iterators that the destructor gives back, the projected values and the description of the rows
-- sent, and in the storage the iterators.
pub record Plan : Type 0 where
  pub message : Bytes
  pub all_tuple_desc : List RowDesc
  pub all_iter : List ℕ
  pub iterator_handler_map : HandlerMap
  pub projection_list : List ValueExpr
  pub output_row_desc : RowDesc

-- Failed `assert` calls and null pointers that are followed are none; a null pointer that is
-- returned is `some none`.
abbrev pub Built {ℓ} : Type ℓ → Type ℓ
Built A = Plan → Option (Option A × Plan)

-- `BuildValueExpression`, with the type that the node is given
unfoldable pub build_value :
    StdMap ℕ SlotReference → Expression → Option (Option (ValueExpr × DataType))
build_value slots (column_reference ref table column) = do
  slot ← find ref slots
  some (some (slot_reference slot.tuple_index slot.slot_index, slot.data_type))
build_value slots (const_value (integer v)) = some (some (integer_const_value v, dt_integer))
build_value slots (const_value (varchar v)) = some (some (varchar_const_value v, dt_varchar))
build_value slots (operation op left right) = do
  l ← build_value slots left
  r ← build_value slots right
  some none

-- the comparison of two values by their type, which must be the same
unfoldable pub build_compare :
    OperatorType
    → Option (ValueExpr × DataType)
    → Option (ValueExpr × DataType)
    → Option (Option BooleanExpr)
build_compare op none right = none
build_compare op (some left) none = none
build_compare op (some (left, data_type)) (some (right, other)) =
    if data_type == other
    then some (
        if data_type == dt_integer
        then some (integer_compare op left right)
        else if data_type == dt_float
        then some (float_compare op left right)
        else if data_type == dt_varchar
        then some (varchar_compare op left right)
        else none)
    else none

abbrev both : OperatorType → Option BooleanExpr → Option BooleanExpr → Option BooleanExpr
both op none right = none
both op (some left) none = none
both op (some left) (some right) = some (logic_expr op left right)

-- `BuildBooleanExpression`
unfoldable pub build_boolean : StdMap ℕ SlotReference → Expression → Option (Option BooleanExpr)
unfolding build_value build_compare
build_boolean slots (column_reference ref table column) = none
build_boolean slots (const_value v) = none
build_boolean slots (operation op left right) =
    let compares = do l ← build_value slots left; r ← build_value slots right; build_compare op l r
    in let connects = do
      l ← build_boolean slots left
      r ← build_boolean slots right
      some (both op l r)
      in if is_compare_operator op
        then compares
        else if is_logic_operator op
        then connects
        else some none

-- `BuildTableScan`; `unset` is what the uninitialised identifiers of a description hold.
unfoldable pub build_table_scan : ℕ → Names → Bytes → Bytes → Built Exec
build_table_scan unset s table alias plan = do
  rel ← s.catalog table
  relation ← find (name_of alias table) s.name2relation
  let tuple_index = length plan.all_tuple_desc
  some (
    some (seq_scan rel.relation_id tuple_index),
    record plan {
      iterator_handler_map = new_handler rel.relation_id plan.iterator_handler_map;
      all_iter = plan.all_iter ++ rel.relation_id ∷ [];
      all_tuple_desc = plan.all_tuple_desc ++ to_desc unset relation ∷ [];
    },
  )

-- The constructor of a join. A null pointer would be followed later: it is none here.
unfoldable pub new_join : TupleRow → Option Exec → Option Exec → Option BooleanExpr → Option Exec
new_join row (some left) (some right) (some p) = some (nested_loop_join left right p row ok ok)
new_join row _ _ _ = none

-- `BuildJoin` of one table factor
unfoldable pub build_join : ℕ → Names → TableFactor → Built Exec
unfolding build_table_scan build_boolean new_join
build_join unset s (table_reference table alias) plan = build_table_scan unset s table alias plan
build_join unset s (join_clause left right predicate) plan = do
  l ← build_join unset s left plan
  r ← build_join unset s right l.1
  p ← build_boolean s.name2slot predicate
  join ← new_join (new_row (size s.name2relation)) l.0 r.0 p
  some (some join, r.1)

-- the loop of `BuildProjection` over the select list, which passes over all but column references
unfoldable pub project_columns : StdMap ℕ SlotReference → List Expression → Built (Unit {0})
project_columns slots [] plan = some (some tt, plan)
project_columns slots (column_reference ref table column ∷ rest) plan = elim (find ref slots) [
  | none ↦ some (
    none,
    record plan {
      message = codes "build projection, fatal error, cannot find name [" ++ column ++ codes "].";
    },
  )
  | some slot ↦ do
    row_desc ← get_elem? plan.all_tuple_desc slot.tuple_index
    column_desc ← get_elem? row_desc slot.slot_index
    project_columns slots rest (record plan {
      projection_list =
          plan.projection_list ++ slot_reference slot.tuple_index slot.slot_index ∷ [];
      output_row_desc = push_column_desc plan.output_row_desc column_desc;
    })
]
project_columns slots (const_value v ∷ rest) plan = project_columns slots rest plan
project_columns slots (operation op left right ∷ rest) plan = project_columns slots rest plan

-- the loops for `SELECT *`, over the attributes of a relation and over the relations
unfoldable pub project_attributes : ℕ → List Attribute → Plan → Option Plan
project_attributes tuple_index [] plan = some plan
project_attributes tuple_index (a ∷ rest) plan = do
  row_desc ← get_elem? plan.all_tuple_desc tuple_index
  column_desc ← get_elem? row_desc a.attribute_index
  project_attributes tuple_index rest (record plan {
    projection_list = plan.projection_list ++ slot_reference tuple_index a.attribute_index ∷ [];
    output_row_desc = push_column_desc plan.output_row_desc column_desc;
  })

unfoldable pub project_relations : StdMap Bytes ℕ → StdMap Bytes Relation → Plan → Option Plan
unfolding project_attributes
project_relations indexes [] plan = some plan
project_relations indexes ((name, relation) ∷ rest) plan = do
  tuple_index ← find name indexes
  plan' ← project_attributes tuple_index relation.attributes plan
  project_relations indexes rest plan'

-- `BuildProjection`
unfoldable pub build_projection : Names → List Expression → Exec → Built Exec
unfolding project_columns project_relations
build_projection s [] top plan = do
  plan' ← project_relations s.name2tuple_index s.name2relation plan
  some (some (project top plan'.projection_list (new_row (size s.name2relation))), plan')
build_projection s (e ∷ select_list) top plan = do
  r ← project_columns s.name2slot (e ∷ select_list) plan
  some (
    elim (r.0) [
      | none ↦ none
      | some _ ↦ some (project top (r.1).projection_list (new_row (size s.name2relation)))
    ],
    r.1,
  )

-- `BuildSelect` where there is a condition; only the first counts.
unfoldable pub build_where : Names → List Expression → Exec → Option (Option Exec)
unfolding build_boolean
build_where s [] top = some (some top)
build_where s (e ∷ rest) top = do
  p ← build_boolean s.name2slot e
  some (elim p [ none ↦ none | some predicate ↦ some (select top predicate) ])

-- `Build` of a query: the state, and the plan
unfoldable pub build : ℕ → Names → SelectStmt → Plan → Option (State × Option Exec × Plan)
unfolding build_join build_where build_projection
build unset s q plan = elim (q.table_reference) [
  | [] ↦ some (build_error, none, record plan { message = codes "unsupported SQL 89 join syntax." })
  | factor ∷ rest ↦ do
    joined ← build_join unset s factor plan
    elim (joined.0) [
      | none ↦ some (build_error, none, joined.1)
      | some top ↦ do
        selected ← build_where s q.opt_where top
        elim selected [
          | none ↦ some (build_error, none, joined.1)
          | some top' ↦ do
            projected ← build_projection s q.select_list top' joined.1
            elim (projected.0) [
              | none ↦ some (build_error, none, projected.1)
              | some plan' ↦ some (ok, some plan', projected.1)
            ]
        ]
    ]
]

-- the loop of `~QueryRealizer`, which gives the iterators back
unfoldable pub release : List ℕ → HandlerMap → Option HandlerMap
release [] map = some map
release (relid ∷ all_iter) map = do map' ← delete_io_object relid map; release all_iter map'
