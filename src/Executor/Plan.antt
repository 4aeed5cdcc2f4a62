-- ===== src/Executor/Plan.antt =====
-- src/executor/seq_scan.cpp, select.cpp, nested_loop_join.cpp and project.cpp, and the loop of
-- `QueryRealizer::ExecSelect` over the top node: a plan is a tree of nodes, and the handlers of the
-- tables it scans are shared, one for each relation.
pub mod Iterators
pub mod Fuel
pub mod Scans
pub mod Joins
pub mod Queries
pub mod Faults
use dbms.Prelude.{
  ℕ, zero, suc, ◌+◌, ◌*◌, Option, none, some, List, [], ◌∷◌, ◌++◌, Bool, true, false, Bytes, length,
  ltb, ◌==◌, if◌then◌else◌, ◌||◌,
}
use dbms.Common.Memory.{Allocator}
use dbms.Common.Define.{State, ok, eof}
use dbms.Common.Row.{TupleRow, new_row, set_tuple, copy_to}
use dbms.Executor.Expression.{ValueExpr, BooleanExpr, Doubles, evaluate}
use dbms.Executor.Projection.{projected}

-- The operations of an iterator of leveldb, on its state, which is a number that nothing else
-- reads.
pub record Iterator : Type 0 where
  pub valid : ℕ → Bool
  pub value : ℕ → Bytes
  pub next : ℕ → ℕ
  pub seek_to_first : ℕ → ℕ

-- `IteratorHandlerImpl`
pub record Cursor : Type 0 where
  pub iterator : Iterator
  pub position : ℕ

-- `iterator_handler_map_`: the handlers, by relation
abbrev pub Cursors : Type 0
Cursors = ℕ → Cursor

abbrev pub move : ℕ → ℕ → Cursors → Cursors
move handler position cs k =
    if k == handler then record (cs handler) { position = position } else cs k

-- `Valid`, `GetTuple`, `Next` and `SeekToFirst` of a handler
abbrev pub valid : ℕ → Cursors → Bool
valid handler cs = let c = cs handler in c.iterator.valid c.position

abbrev pub tuple_at : ℕ → Cursors → Bytes
tuple_at handler cs = let c = cs handler in c.iterator.value c.position

abbrev pub advance : ℕ → Cursors → Cursors
advance handler cs = let c = cs handler in move handler (c.iterator.next c.position) cs

abbrev pub rewind : ℕ → Cursors → Cursors
rewind handler cs = let c = cs handler in move handler (c.iterator.seek_to_first c.position) cs

-- The nodes, with the members that change: a projection's own row, a join's row and its two states.
pub data Exec : Type 0 where
  seq_scan : ℕ → ℕ → Exec
  select : Exec → BooleanExpr → Exec
  project : Exec → List ValueExpr → TupleRow → Exec
  nested_loop_join : Exec → Exec → BooleanExpr → TupleRow → State → State → Exec

-- A call returns, is undefined, or uses up the fuel of a loop.
pub data Run {ℓ} (A : Type ℓ) : Type ℓ where
  returns : A → Run A
  fault out_of_fuel : Run A

infixl 5 ◌>>=◌
abbrev pub ◌>>=◌ {ℓ κ} : {A : Type ℓ} {B : Type κ} → Run A → (A → Run B) → Run B
returns a >>= f = f a
fault >>= f = fault
out_of_fuel >>= f = out_of_fuel

abbrev pub or_fault {ℓ} : {A : Type ℓ} → Option A → Run A
or_fault none = fault
or_fault (some a) = returns a

-- What a node leaves behind: its state, the node, the cursors and the caller's row.
pub record Result : Type 0 where
  pub state : State
  pub exec : Exec
  pub cursors : Cursors
  pub row : TupleRow

abbrev pub is_ok : State → Bool
is_ok ok = true
is_ok _ = false

abbrev pub is_eof : State → Bool
is_eof eof = true
is_eof _ = false

-- `Prepare`
unfoldable pub prepare : Exec → State
prepare (seq_scan handler tuple_index) = ok
prepare (select left predicate) = prepare left
prepare (project left attrs tuple_row) = prepare left
prepare (nested_loop_join left right predicate row left_state right_state) =
    let state = prepare left in if is_ok state then prepare right else state

-- `SeqScan::GetNext`
unfoldable pub scan_next : ℕ → ℕ → Cursors → TupleRow → Run Result
scan_next handler tuple_index cs row = elim (valid handler cs) [
  | false ↦
      returns (record { state = eof; exec = seq_scan handler tuple_index; cursors = cs; row = row })
  | true ↦ do
    row' ← or_fault (set_tuple tuple_index (tuple_at handler cs) row)
    returns (record {
      state = ok;
      exec = seq_scan handler tuple_index;
      cursors = advance handler cs;
      row = row';
    })
]

unfoldable mutual
  unfolding scan_next projected copy_to evaluate

  -- `GetNext`. The fuel bounds the rounds of the loops and the depth of the plan.
  pub get_next : Allocator → Doubles → ℕ → Exec → Cursors → TupleRow → Run Result
  get_next m d zero e cs row = out_of_fuel
  get_next m d (suc fuel) (seq_scan handler tuple_index) cs row =
      scan_next handler tuple_index cs row
  get_next m d (suc fuel) (select left predicate) cs row = do
    r ← get_next m d fuel left cs row
    elim (is_eof r.state) [
      | true ↦ returns (record r { exec = select r.exec predicate })
      | false ↦ do
        pre ← or_fault (evaluate d predicate r.row)
        elim pre [
          | true ↦ returns (record r { state = ok; exec = select r.exec predicate })
          | false ↦ get_next m d fuel (select r.exec predicate) r.cursors r.row
        ]
    ]
  get_next m d (suc fuel) (project left attrs tuple_row) cs row = do
    r ← get_next m d fuel left cs tuple_row
    elim (is_ok r.state) [
      | false ↦ returns (record r { exec = project r.exec attrs r.row; row = row })
      | true ↦ do
        tuple ← or_fault (projected m attrs r.row)
        row' ← or_fault (set_tuple 0 tuple row)
        returns (record r { exec = project r.exec attrs r.row; row = row' })
    ]
  get_next m d (suc fuel) (nested_loop_join left right p row_ eof eof) cs row = returns (record {
    state = eof;
    exec = nested_loop_join left right p row_ eof eof;
    cursors = cs;
    row = row;
  })
  get_next m d (suc fuel) (nested_loop_join left right p row_ left_state right_state) cs row = do
    r ← get_next m d fuel right cs row_
    next_right m d fuel left r.exec p left_state r.state r.cursors r.row row

  -- The rest of a round of `NestedLoopJoin::GetNext`, on the state, the node, the cursors and the
  -- row that the right node left.
  pub next_right :
      Allocator
      → Doubles
      → ℕ
      → Exec
      → Exec
      → BooleanExpr
      → State
      → State
      → Cursors
      → TupleRow
      → TupleRow
      → Run Result
  next_right m d zero left right p left_state right_state cs row_ row = out_of_fuel
  next_right m d (suc fuel) left right p left_state ok cs row_ row = do
    pre ← or_fault (evaluate d p row_)
    let join = nested_loop_join left right p row_ left_state ok
    elim pre [
      | true ↦ returns (record { state = ok; exec = join; cursors = cs; row = copy_to row_ row })
      | false ↦ get_next m d fuel join cs row
    ]
  next_right m d (suc fuel) left right p left_state eof cs row_ row = do
    l ← get_next m d fuel left cs row_
    elim (is_ok l.state) [
      | false ↦
          returns (record l { exec = nested_loop_join l.exec right p l.row l.state eof; row = row })
      | true ↦ do
        o ← open_exec m d fuel right l.cursors
        let join = nested_loop_join l.exec o.exec p l.row ok o.state
        elim (is_ok o.state) [
          | true ↦ get_next m d fuel join o.cursors row
          | false ↦ returns (record o { exec = join; row = row })
        ]
    ]
  next_right m d (suc fuel) left right p left_state right_state cs row_ row = returns (record {
    state = right_state;
    exec = nested_loop_join left right p row_ left_state right_state;
    cursors = cs;
    row = row;
  })

  -- `Open`, which has no row: that of the result is empty.
  pub open_exec : Allocator → Doubles → ℕ → Exec → Cursors → Run Result
  open_exec m d zero e cs = out_of_fuel
  open_exec m d (suc fuel) (seq_scan handler tuple_index) cs = returns (record {
    state = ok;
    exec = seq_scan handler tuple_index;
    cursors = rewind handler cs;
    row = [];
  })
  open_exec m d (suc fuel) (select left predicate) cs = do
    r ← open_exec m d fuel left cs
    returns (record r { exec = select r.exec predicate })
  open_exec m d (suc fuel) (project left attrs tuple_row) cs = do
    r ← open_exec m d fuel left cs
    returns (record r { exec = project r.exec attrs tuple_row })
  open_exec m d (suc fuel) (nested_loop_join left right p row_ left_state right_state) cs = do
    l ← open_exec m d fuel left cs
    elim (is_ok l.state) [
      | false ↦
          returns (record l { exec = nested_loop_join l.exec right p row_ left_state right_state })
      | true ↦ do
        r ← open_exec m d fuel right l.cursors
        elim (is_ok r.state) [
          | false ↦
              returns
                (record r { exec = nested_loop_join l.exec r.exec p row_ left_state right_state })
          | true ↦ do
            f ← get_next m d fuel l.exec r.cursors row_
            let first = nested_loop_join f.exec r.exec p f.row f.state
            elim (is_ok f.state || is_eof f.state) [
              | true ↦ returns (record f { state = ok; exec = first ok; row = [] })
              | false ↦ returns (record f { exec = first right_state; row = [] })
            ]
        ]
    ]

-- the loop of `ExecSelect`: the rows sent, and the state in the end
unfoldable pub fetch :
    Allocator → Doubles → ℕ → Exec → Cursors → TupleRow → Run (List TupleRow × State)
unfolding get_next
fetch m d zero e cs row = out_of_fuel
fetch m d (suc fuel) e cs row = do
  r ← get_next m d fuel e cs row
  elim (is_ok r.state) [
    | false ↦ returns ([], r.state)
    | true ↦ do more ← fetch m d fuel r.exec r.cursors r.row; returns (r.row ∷ more.0, more.1)
  ]

-- `ExecSelect` from `Prepare` to `Close`, which does nothing in any node. The rows that it sends
-- are collected, each where the code calls `SendRowData`; `SendRowDescription`, the write buffer
-- and the message of the realizer are left out.
unfoldable pub exec_select : Allocator → Doubles → ℕ → Exec → Cursors → Run (List TupleRow × State)
unfolding prepare open_exec fetch
exec_select m d fuel e cs = elim (is_ok (prepare e)) [
  | false ↦ returns ([], prepare e)
  | true ↦ do
    o ← open_exec m d fuel e cs
    elim (is_ok o.state) [
      | false ↦ returns ([], o.state)
      | true ↦ do
        sent ← fetch m d fuel o.exec o.cursors (new_row 1)
        returns (sent.0, if is_eof sent.1 then ok else sent.1)
    ]
]
