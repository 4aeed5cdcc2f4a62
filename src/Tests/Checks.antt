-- ===== src/Tests/Checks.antt =====
-- A query over two tables that passes its check.
use dbms.Prelude.{
  Every, ℕ, zero, suc, ◌≡◌, refl, ap, subst, get_elem?, some, none, Option, [], ◌∷◌, codes, arith,
  bytes_eq, bytes_lt,
}
use dbms.Prelude.Maps.{find, update, nat_key, insert}
use dbms.Common.Define.{ok, equal, dt_integer, is_compare_operator}
use dbms.Common.Relation.{get_attribute_index, to_desc}
use dbms.Common.Row.{new_row, RowDesc, ColumnDesc, push_column_desc}
use dbms.Realizer.{
  Names, integer, SelectStmt, SlotReference, Expression, column_reference, const_value, operation,
  check,
}
use dbms.Realizer.Build.{Plan, project_columns}
use dbms.Realizer.Build.Projected.{Covers, Projects, check-project_columns}
use dbms.Realizer.Build.Checked.{Buildable, predicates, check-build_value}
use dbms.Storage.{HandlerMap, new_handler}
use dbms.Storage.Handlers.{IsCounted, references}
use dbms.Executor.Plan.{Exec, select, project}
use dbms.Executor.Expression.{slot_reference, integer_compare, integer_const_value}
use dbms.Realizer.Build.{build, build_boolean, release}
use dbms.Realizer.Build.Typing.{WellTyped, build_boolean-WellTyped}
use dbms.Realizer.Build.Release.{build-release}
use dbms.Tests.Names.{no_plan, join_plan, names, start, joined, planned}

-- SELECT a.id, 5 FROM a JOIN b ON a.id = b.id WHERE b.id = 5
abbrev condition : Expression
condition = operation equal (column_reference 2 (codes "b") (codes "id")) (const_value (integer 5))

abbrev query : SelectStmt
query = record {
  select_list = column_reference 3 (codes "a") (codes "id") ∷ const_value (integer 5) ∷ [];
  table_reference = joined ∷ [];
  opt_where = condition ∷ [];
  opt_group = [];
  opt_order = [];
}

abbrev slot_a : SlotReference
slot_a = record { tuple_index = 0; slot_index = 0; data_type = 20 }

abbrev slot_b : SlotReference
slot_b = record { tuple_index = 1; slot_index = 0; data_type = 20 }

abbrev checked : Names
checked = record names {
  name2slot = (0, slot_a) ∷ (1, slot_b) ∷ (2, slot_b) ∷ (3, slot_a) ∷ [];
  select_ref = 3 ∷ [];
  opt_where = condition ∷ [];
}

check-build_value_example :
    ((((Every (λ f. Every (Buildable checked.name2slot) (predicates f)) (joined ∷ [])
            × Every (Buildable checked.name2slot) (condition ∷ []))
          × Unit {0})
        × Every (Buildable checked.name2slot) query.select_list)
      × Unit {0})
unfolding check find insert bytes_eq bytes_lt get_attribute_index
check-build_value_example = check-build_value query start checked refl

slot_of : Option SlotReference → SlotReference
slot_of none = slot_a
slot_of (some slot) = slot

abbrev Column : SlotReference → Type 0
Column slot =
    (row_desc : RowDesc) × (column_desc : ColumnDesc) × (get_elem? planned.all_tuple_desc
        slot.tuple_index
      ≡ some row_desc)
    × (get_elem? row_desc slot.slot_index ≡ some column_desc)

abbrev id_desc : ColumnDesc
id_desc = record {
  column_name = codes "id";
  data_type = dt_integer;
  data_type_size = 8;
  relation_id = 0;
  attribute_id = 0;
  item_slot = record { nth_tuple = 0; nth_item = 0 };
}

covered : Covers checked.name2slot planned.all_tuple_desc
unfolding find to_desc slot_of
covered zero slot h = subst Column (ap slot_of h) (id_desc ∷ [], id_desc, refl, refl)
covered (suc zero) slot h = subst Column (ap slot_of h) (id_desc ∷ [], id_desc, refl, refl)
covered (suc (suc zero)) slot h = subst Column (ap slot_of h) (id_desc ∷ [], id_desc, refl, refl)
covered (suc (suc (suc zero))) slot h =
    subst Column (ap slot_of h) (id_desc ∷ [], id_desc, refl, refl)
covered (suc (suc (suc (suc k)))) slot h = absurd (ground (arith, h))

check-project_columns_example :
    (plan : Plan) × (project_columns checked.name2slot query.select_list planned
      ≡ some (some tt, plan))
    × Projects (slot_a ∷ []) planned plan
unfolding check find insert bytes_eq bytes_lt get_attribute_index
check-project_columns_example = check-project_columns query start checked planned refl covered

-- a plan while another query scans the same table
abbrev shared : Plan
shared = record no_plan { iterator_handler_map = (7, 1) ∷ [] }

abbrev built : Plan
built = record planned {
  all_iter = 7 ∷ 7 ∷ [];
  iterator_handler_map = (7, 3) ∷ [];
  projection_list = slot_reference 0 0 ∷ [];
  output_row_desc = id_desc ∷ [];
}

abbrev chosen : Exec
chosen =
    project (select join_plan (integer_compare equal (slot_reference 1 0) (integer_const_value 5)))
      (slot_reference 0 0 ∷ []) (new_row 2)

shared-IsCounted : IsCounted shared.iterator_handler_map
unfolding find
shared-IsCounted = record { distinct = (refl, tt); used = λ relid h. ground (arith, h) }

build-release_example :
    (rest : HandlerMap) × (release built.all_iter built.iterator_handler_map ≡ some rest)
    × IsCounted rest
    × ((relid : ℕ) → references relid rest ≡ references relid shared.iterator_handler_map)
unfolding build find bytes_eq is_compare_operator new_handler update to_desc push_column_desc
build-release_example =
    build-release 0 checked query shared built ok (some chosen) refl shared-IsCounted refl

build_boolean-WellTyped_example :
    WellTyped checked.name2slot (integer_compare equal (slot_reference 1 0) (integer_const_value 5))
unfolding build_boolean find is_compare_operator
build_boolean-WellTyped_example =
    build_boolean-WellTyped checked.name2slot condition
      (integer_compare equal (slot_reference 1 0) (integer_const_value 5)) refl
