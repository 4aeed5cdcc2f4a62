-- ===== src/Realizer.antt =====
-- src/realizer/query_realizer.cpp: a query's tree is checked against the catalog, and a plan is built
-- of it. The classes of the tree are those of src/include/parser.
pub mod Resolution
pub mod Kept
pub mod Slots
pub mod Numbering
pub mod Build
pub mod Definition
pub mod Insertion
use dbms.Prelude.{
  ℕ, ◌+◌, ◌-◌, ◌*◌, Option, none, some, List, [], ◌∷◌, ◌++◌, Bool, true, false, not, Bytes, codes,
  length, get_elem?, bytes_eq, if◌then◌else◌,
}
use dbms.Prelude.Maps.{StdMap, find, insert, size, bytes_key, nat_key}
use dbms.Common.Memory.{◌>>=◌}
use dbms.Common.Define.{
  OperatorType, DataType, State, ok, relation_not_found, attribute_not_found, name_ambiguous,
}
use dbms.Common.Relation.{Relation, get_attribute_index}

-- `ConstValue`; an integer is its bit pattern.
pub data Constant : Type 0 where
  integer : ℕ → Constant
  varchar : Bytes → Constant

-- `ColumnReference`, `ConstValue` and `Operation`. A reference has its address, by which
-- `name2slot_` knows it, the table, empty where the query has none, and the column.
pub data Expression : Type 0 where
  column_reference : ℕ → Bytes → Bytes → Expression
  const_value : Constant → Expression
  operation : OperatorType → Expression → Expression → Expression

-- `TableReference`, with the alias, empty where the query has none, and `JoinClause`
pub data TableFactor : Type 0 where
  table_reference : Bytes → Bytes → TableFactor
  join_clause : TableFactor → TableFactor → Expression → TableFactor

-- `SelectStmt`; an order clause is its expression and whether it descends.
pub record SelectStmt : Type 0 where
  pub select_list : List Expression
  pub table_reference : List TableFactor
  pub opt_where : List Expression
  pub opt_group : List Expression
  pub opt_order : List (Expression × Bool)

pub data ClauseType : Type 0 where
  in_select in_where in_join_on in_order_by in_group_by in_having : ClauseType

pub record SlotReference : Type 0 where
  pub tuple_index : ℕ
  pub slot_index : ℕ
  pub data_type : DataType

-- The members of `QueryRealizer` that the checks read and write. `catalog` is `GetRelation`.
pub record Names : Type 0 where
  pub catalog : Bytes → Option Relation
  pub message : Bytes
  pub name2relation : StdMap Bytes Relation
  pub name2tuple_index : StdMap Bytes ℕ
  pub name2slot : StdMap ℕ SlotReference
  pub select_ref : List ℕ
  pub opt_group_by_ref : List ℕ
  pub opt_order_by_ref : List ℕ
  pub opt_order_by_is_desc : List Bool
  pub opt_where : List Expression

-- A check returns a state; a failed `assert` and undefined behaviour are none.
abbrev pub Check : Type 0
Check = Names → Option (State × Names)

abbrev pub go_on : State → Check → Check
go_on ok next s = next s
go_on state next s = some (state, s)

-- the next check, after one that returned `kStateOK`
infixl 5 ◌then◌
abbrev pub ◌then◌ : Check → Check → Check
◌then◌ c next s = do r ← c s; go_on r.0 next r.1

-- the first that is not empty
abbrev pub name_of : Bytes → Bytes → Bytes
name_of [] table = table
name_of (x ∷ alias) table = x ∷ alias

-- The loop over `name2relation_`: where a column was found. The code keeps the positions, and the
-- name and the relation of the last.
unfoldable pub owners : Bytes → StdMap Bytes Relation → List (Bytes × (Relation × ℕ))
owners column [] = []
owners column ((name, rel) ∷ m) =
    let rest = owners column m in
    elim (get_attribute_index rel column) [ none ↦ rest | some i ↦ (name, (rel, i)) ∷ rest ]

-- what the code makes of them: an error unless there is exactly one
unfoldable pub choose :
    Bytes → Bytes → List (Bytes × (Relation × ℕ)) → Option (Bytes × (Relation × ℕ)) × State × Bytes
choose column message [] =
    (none, attribute_not_found, codes "cannot find attribute name [" ++ column ++ codes "]")
choose column message (owner ∷ []) = (some owner, ok, message)
choose column message (owner ∷ other ∷ more) =
    (none, name_ambiguous, codes "attribute [" ++ column ++ codes "] ambiguous.")

-- A column reference resolved: the name of its table, its relation and its position, or an error.
unfoldable pub resolve : Bytes → Bytes → Names → Option (Bytes × (Relation × ℕ)) × State × Bytes
unfolding owners choose
resolve [] column s = choose column s.message (owners column s.name2relation)
resolve (x ∷ table) column s = elim (find (x ∷ table) s.name2relation) [
  | none ↦ (none, relation_not_found, codes "cannot find table name [" ++ (x ∷ table) ++ codes "]")
  | some rel ↦ elim (get_attribute_index rel column) [
    | none ↦
        (none, attribute_not_found, codes "cannot find attribute name [" ++ column ++ codes "]")
    | some i ↦ (some (x ∷ table, (rel, i)), ok, s.message)
  ]
]

-- where a reference is put down, by the clause it stands in
unfoldable pub note_reference : ClauseType → ℕ → Check
note_reference ClauseType.in_select ref s =
    some (ok, record s { select_ref = s.select_ref ++ ref ∷ [] })
note_reference ClauseType.in_group_by ref s =
    some (ok, record s { opt_group_by_ref = s.opt_group_by_ref ++ ref ∷ [] })
note_reference ClauseType.in_order_by ref s =
    some (ok, record s { opt_order_by_ref = s.opt_order_by_ref ++ ref ∷ [] })
note_reference ClauseType.in_join_on ref s = some (ok, s)
note_reference ClauseType.in_where ref s = some (ok, s)
note_reference ClauseType.in_having ref s = none

-- the branch of `CheckExpressionBase` for a column reference
unfoldable pub check_reference : ClauseType → ℕ → Bytes → Bytes → Check
unfolding resolve note_reference
check_reference type ref table column s =
    let (found, state, message) = resolve table column s in
    elim found [
      | none ↦ some (state, record s { message = message })
      | some owner ↦ do
        tuple_index ← find owner.0 s.name2tuple_index
        attr ← get_elem? owner.1.0.attributes owner.1.1
        let slot_ref : SlotReference = record {
          tuple_index = tuple_index;
          slot_index = owner.1.1;
          data_type = attr.data_type;
        }
        note_reference type ref (record s { name2slot = insert ref slot_ref s.name2slot })
    ]

abbrev pub may_have_operation : ClauseType → Bool
may_have_operation ClauseType.in_join_on = true
may_have_operation ClauseType.in_where = true
may_have_operation _ = false

abbrev pub push_where : ClauseType → Expression → Names → Names
push_where ClauseType.in_where e s = record s { opt_where = s.opt_where ++ e ∷ [] }
push_where _ e s = s

-- `CheckExpressionBase`; its last branch repeats the condition of the one before and is never
-- taken.
unfoldable pub check_expression : ClauseType → Expression → Check
unfolding check_reference
check_expression type (column_reference ref table column) s =
    check_reference type ref table column s
check_expression type (const_value v) s = some (ok, s)
check_expression type (operation op left right) s =
    let checks =
      check_expression type left
      then check_expression type right
      then (λ t. some (ok, push_where type (operation op left right) t)) in
    if may_have_operation type then checks s else none

-- `CheckTableFactor`
unfoldable pub check_table_factor : TableFactor → Check
unfolding check_expression
check_table_factor (table_reference table alias) s = elim (s.catalog table) [
  | none ↦ some (
    relation_not_found,
    record s { message = codes "cannot find relation [" ++ table ++ codes "]." },
  )
  | some relation ↦
      let name = name_of alias table in
      some (
        ok,
        record s {
          name2tuple_index = insert name (size s.name2tuple_index) s.name2tuple_index;
          name2relation = insert name relation s.name2relation;
        },
      )
]
check_table_factor (join_clause left right predicate) s =
    (check_table_factor left
        then check_table_factor right
        then check_expression ClauseType.in_join_on predicate)
      s

-- The loops of `CheckFrom`, `CheckWhere`, `CheckGroupBy`, `CheckSelect` and `CheckOrderBy`.
unfoldable pub check_all {ℓ} : {A : Type ℓ} → (A → Check) → List A → Check
check_all f [] s = some (ok, s)
check_all f (a ∷ rest) s = (f a then check_all f rest) s

unfoldable pub check_order : Expression × Bool → Check
unfolding check_expression
check_order (e, is_desc) s =
    check_expression ClauseType.in_order_by e
      (record s { opt_order_by_is_desc = s.opt_order_by_is_desc ++ is_desc ∷ [] })

-- `Check` of a query
unfoldable pub check : SelectStmt → Check
unfolding check_all check_order check_table_factor check_expression
check q s =
    (check_all check_table_factor q.table_reference
        then check_all (check_expression ClauseType.in_where) q.opt_where
        then check_all (check_expression ClauseType.in_group_by) q.opt_group
        then check_all (check_expression ClauseType.in_select) q.select_list
        then check_all check_order q.opt_order)
      s
