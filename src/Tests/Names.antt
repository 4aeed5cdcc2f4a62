-- ===== src/Tests/Names.antt =====
-- Names and plans.
use dbms.Prelude.{
  bytes_lt, arith, zero, suc, ◌≡◌, ◌↔◌, refl, some, [], ◌∷◌, bytes_eq, codes, if◌then◌else◌,
}
use dbms.Prelude.Maps.{find, insert}
use dbms.Common.Define.{ok, equal, is_compare_operator}
use dbms.Executor.Plan.{Exec, seq_scan, nested_loop_join}
use dbms.Executor.Expression.{integer_compare, slot_reference}
use dbms.Common.Row.{new_row}
use dbms.Realizer.{
  Names, TableFactor, table_reference, join_clause, column_reference, operation, resolve,
}
use dbms.Realizer.Numbering.{IsNumbered, NoRepeat, check_table_factor-IsNumbered}
use dbms.Common.Relation.{get_attribute_index}
use dbms.Realizer.{check_table_factor}
use dbms.Realizer.Resolution.{IsOwner, resolve_unqualified}
use dbms.Realizer.Build.{Plan, build_join}
use dbms.Realizer.Build.Positions.{scans, build_join-scans}
use dbms.Storage.{new_handler}
use dbms.Common.Relation.{Relation, to_desc}
use dbms.Tests.{users}

-- what the checks of a query over the tables `a` and `b` leave
abbrev pub names : Names
names = record {
  catalog = λ name. some users;
  message = [];
  name2relation = (codes "a", users) ∷ (codes "b", users) ∷ [];
  name2tuple_index = (codes "a", 0) ∷ (codes "b", 1) ∷ [];
  name2slot =
      (0, record { tuple_index = 0; slot_index = 0; data_type = 20 })
      ∷ (1, record { tuple_index = 1; slot_index = 0; data_type = 20 })
      ∷ [];
  select_ref = [];
  opt_group_by_ref = [];
  opt_order_by_ref = [];
  opt_order_by_is_desc = [];
  opt_where = [];
}

resolve_unqualified_example :
    ((resolve [] (codes "id") names).0 ≡ some (codes "a", (users, 0)))
    ↔ IsOwner (codes "id") (codes "a") users 0 names.name2relation
unfolding find bytes_eq
resolve_unqualified_example =
    resolve_unqualified (codes "id") (codes "a") users 0 names (refl, (refl, tt))

abbrev pub joined : TableFactor
joined = join_clause (table_reference (codes "a") []) (table_reference (codes "b") []) (
    operation equal (column_reference 0 (codes "a") (codes "id"))
      (column_reference 1 (codes "b") (codes "id")))

abbrev pub no_plan : Plan
no_plan = record {
  message = [];
  all_tuple_desc = [];
  all_iter = [];
  iterator_handler_map = [];
  projection_list = [];
  output_row_desc = [];
}

abbrev pub join_plan : Exec
join_plan =
    nested_loop_join (seq_scan 7 0) (seq_scan 7 1)
      (integer_compare equal (slot_reference 0 0) (slot_reference 1 0)) (new_row 2) ok ok

abbrev pub planned : Plan
planned = record no_plan {
  all_tuple_desc = to_desc 0 users ∷ to_desc 0 users ∷ [];
  all_iter = 7 ∷ 7 ∷ [];
  iterator_handler_map = new_handler 7 (new_handler 7 []);
}

abbrev roles : Relation
roles = record users { relation_id = 9; attributes = [] }

-- a catalog in which `a` and `b` are two relations
abbrev two_tables : Names
two_tables = record names {
  catalog = λ name. if bytes_eq name (codes "a") then some users else some roles;
  name2relation = (codes "a", users) ∷ (codes "b", roles) ∷ [];
}

abbrev two_plan : Exec
two_plan =
    nested_loop_join (seq_scan 7 0) (seq_scan 9 1)
      (integer_compare equal (slot_reference 0 0) (slot_reference 1 0)) (new_row 2) ok ok

abbrev two_planned : Plan
two_planned = record no_plan {
  all_tuple_desc = to_desc 0 users ∷ [] ∷ [];
  all_iter = 7 ∷ 9 ∷ [];
  iterator_handler_map = new_handler 9 (new_handler 7 []);
}

build_join-scans_example :
    (scans two_plan ≡ (7, 0) ∷ (9, 1) ∷ [])
    × (two_planned.all_tuple_desc ≡ to_desc 0 users ∷ [] ∷ [])
unfolding build_join find bytes_eq is_compare_operator to_desc
build_join-scans_example = build_join-scans 0 two_tables joined no_plan two_planned two_plan refl

-- before the checks
abbrev pub start : Names
start = record names { name2relation = []; name2tuple_index = []; name2slot = [] }

two_names : NoRepeat (codes "a" ∷ codes "b" ∷ [])
two_names zero zero name h k = refl
two_names zero (suc zero) name h k = ground (arith, h, k)
two_names zero (suc (suc j)) name h k = ground (arith, k)
two_names (suc zero) zero name h k = ground (arith, h, k)
two_names (suc zero) (suc zero) name h k = refl
two_names (suc zero) (suc (suc j)) name h k = ground (arith, k)
two_names (suc (suc i)) j name h k = ground (arith, h)

start-IsNumbered : IsNumbered [] start
unfolding find
start-IsNumbered = record {
  size_is = refl;
  found = λ k name h. ground (arith, h);
  only = λ name k h. ground (arith, h);
}

check_table_factor-IsNumbered_example : IsNumbered (codes "a" ∷ codes "b" ∷ []) names
unfolding check_table_factor find insert bytes_eq bytes_lt get_attribute_index
check_table_factor-IsNumbered_example =
    check_table_factor-IsNumbered joined [] start names start-IsNumbered two_names refl
