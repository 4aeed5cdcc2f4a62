-- ===== src/Executor/Plan/Queries.antt =====
-- Plans of the shapes that `QueryRealizer::Build` makes, from `ExecSelect` on.
use dbms.Prelude.{ℕ, arith, ◌<◌, ◌≡◌, ◌≢◌, refl, List, [], ◌∷◌, some, sym, Bytes, set, length}
use dbms.Common.Memory.{Allocator}
use dbms.Common.Define.{ok}
use dbms.Common.Row.{TupleRow, new_row}
use dbms.Executor.Expression.{ValueExpr, BooleanExpr, Doubles}
use dbms.Executor.Plan.{
  Exec, seq_scan, select, project, nested_loop_join, Cursors, advance, rewind, get_next, open_exec,
  prepare, exec_select,
}
use dbms.Executor.Plan.Fuel.{Gives, Settles-suc, Settles-three, Opens, exec_select-Opens}
use dbms.Executor.Plan.Scans.{
  scanned, filter_rows, project_rows, scan-Delivers, select-Delivers, project-Delivers,
  scan-Gives_more, scan-Gives_open,
}
use dbms.Executor.Plan.Iterators.{IsAt, Holds, move-IsAt_ne, move-Holds, advance-IsAt, rewind-IsAt}
use dbms.Executor.Plan.Joins.{pairs, join, join-Delivers}

scan-Opens :
    (m : Allocator) (d : Doubles) (h i : ℕ) (cs : Cursors) (row : TupleRow) (ts : List Bytes)
    → i < length row
    → Holds (cs h) ts
    → Opens m d (seq_scan h i) cs row (scanned i row ts)
scan-Opens m d h i cs row ts l e = (
  seq_scan h i,
  rewind h cs,
  [],
  scan-Gives_open m d h i cs,
  scan-Delivers m d h i (rewind h cs) row ts l (rewind-IsAt h cs ts e),
)

select-Opens :
    (m : Allocator) (d : Doubles) (e : Exec) (p : BooleanExpr) (cs : Cursors) (row : TupleRow)
    (rows kept : List TupleRow)
    → Opens m d e cs row rows
    → filter_rows d p rows ≡ some kept
    → Opens m d (select e p) cs row kept
unfolding get_next
select-Opens m d e p cs row rows kept (o, cs', row', g, rest) h = (
  select o p,
  cs',
  row',
  Settles-suc (λ n. open_exec m d n (select e p) cs) (λ n. open_exec m d n e cs) _ _ g
      (λ n i. rw i refl),
  select-Delivers m d o p cs' row rows kept rest h,
)

project-Opens :
    (m : Allocator) (d : Doubles) (e : Exec) (attrs : List ValueExpr) (cs : Cursors)
    (tuple_row row : TupleRow) (rows : List TupleRow) (out : List Bytes)
    → Opens m d e cs tuple_row rows
    → project_rows m attrs rows ≡ some out
    → 0 < length row
    → Opens m d (project e attrs tuple_row) cs row (scanned 0 row out)
unfolding get_next
project-Opens m d e attrs cs tuple_row row rows out (o, cs', row', g, rest) h l = (
  project o attrs tuple_row,
  cs',
  row',
  Settles-suc (λ n. open_exec m d n (project e attrs tuple_row) cs) (λ n. open_exec m d n e cs) _ _
      g (λ n i. rw i refl),
  project-Delivers m d o attrs cs' tuple_row row rows out rest h l,
)

-- The query `SELECT attrs FROM t WHERE w`, with `t` a table whose iterator finds its tuples from
-- the first on, sends, for each tuple of the table that the condition
-- holds for, in their order, the projection of it, and ends in the state OK.
pub select_from_table :
    (m : Allocator) (d : Doubles) (h : ℕ) (w : BooleanExpr) (attrs : List ValueExpr) (cs : Cursors)
    (ts : List Bytes) (kept : List TupleRow) (out : List Bytes)
    → Holds (cs h) ts
    → filter_rows d w (scanned 0 (new_row 1) ts) ≡ some kept
    → project_rows m attrs kept ≡ some out
    → Gives
        (λ n. exec_select m d n (project (select (seq_scan h 0) w) attrs (new_row 1)) cs)
        (scanned 0 (new_row 1) out, ok)
unfolding prepare new_row
select_from_table m d h w attrs cs ts kept out e f p =
    exec_select-Opens m d (project (select (seq_scan h 0) w) attrs (new_row 1)) cs
      (scanned 0 (new_row 1) out) refl
      (project-Opens m d (select (seq_scan h 0) w) attrs cs (new_row 1) (new_row 1) kept out
        (select-Opens m d (seq_scan h 0) w cs (new_row 1) (scanned 0 (new_row 1) ts) kept
          (scan-Opens m d h 0 cs (new_row 1) ts (omega arith) e) f)
        p (omega arith))

-- what `Open` of a join leaves
abbrev pub opened_cursors : ℕ → ℕ → Cursors → Cursors
opened_cursors h k cs = rewind k (rewind h cs)

pub opened_left :
    (h k : ℕ) (cs : Cursors) (as' : List Bytes)
    → h ≢ k
    → Holds (cs h) as'
    → IsAt (opened_cursors h k cs h) as'
opened_left h k cs as' ne e = move-IsAt_ne k h _ (rewind h cs) as' ne (rewind-IsAt h cs as' e)

pub opened_right :
    (h k : ℕ) (cs : Cursors) (bs : List Bytes) → Holds (cs k) bs → IsAt (opened_cursors h k cs k) bs
opened_right h k cs bs e = rewind-IsAt k (rewind h cs) bs (move-Holds h k _ cs bs e)

opened_rows :
    (h k : ℕ) (cs : Cursors) (bs : List Bytes)
    → Holds (cs k) bs
    → Holds (opened_cursors h k cs k) bs
opened_rows h k cs bs e = move-Holds k k _ (rewind h cs) bs (move-Holds h k _ cs bs e)

join-Opens :
    (m : Allocator) (d : Doubles) (h k : ℕ) (p : BooleanExpr) (cs : Cursors) (a : Bytes)
    (as' bs : List Bytes) (kept : List TupleRow)
    → h ≢ k
    → Holds (cs h) (a ∷ as')
    → Holds (cs k) bs
    → filter_rows d p (pairs 0 1 (new_row 2) (a ∷ as') bs) ≡ some kept
    → Opens m d (join m d h k 0 1 p (new_row 2)) cs (new_row 2) kept
unfolding get_next new_row
join-Opens m d h k p cs a as' bs kept hk e eb w =
    let cs₂ = opened_cursors h k cs in
    let row₁ = set (new_row 2) 0 (some a) in
    (
      join m d h k 0 1 p row₁,
      advance h cs₂,
      [],
      Settles-three (λ n. open_exec m d n (join m d h k 0 1 p (new_row 2)) cs)
          (λ n. open_exec m d n (seq_scan h 0) cs)
          (λ n. open_exec m d n (seq_scan k 1) (rewind h cs))
          (λ n. get_next m d n (seq_scan h 0) cs₂ (new_row 2)) _ _ _ _ (scan-Gives_open m d h 0 cs)
          (scan-Gives_open m d k 1 (rewind h cs))
          (scan-Gives_more m d h 0 cs₂ (new_row 2) a as' (omega arith)
            (opened_left h k cs (a ∷ as') hk e))
          (λ n e₁ e₂ e₃. rw e₁ (rw e₂ (rw e₃ refl))),
      join-Delivers m d h k 0 1 p (new_row 2) as' bs bs (advance h cs₂) row₁ (new_row 2) row₁ kept
          hk (λ x. absurd (omega arith)) (omega arith) (omega arith) refl (refl, λ x y. refl)
          (λ x. refl) (advance-IsAt h cs₂ a as' (opened_left h k cs (a ∷ as') hk e))
          (move-IsAt_ne h k _ cs₂ bs (λ x. hk (sym x)) (opened_right h k cs bs eb))
          (move-Holds h k _ cs₂ bs (opened_rows h k cs bs eb)) w,
    )

-- The query `SELECT attrs FROM a JOIN b ON p WHERE w`, with `a` not empty and another table than
-- `b`, and iterators that find the tuples of the two from the first on, sends the projections of
-- those rows of the nested loop over the two tables for which the two conditions hold, in the order
-- of the loop, and ends in the state OK.
pub select_from_join :
    (m : Allocator) (d : Doubles) (h k : ℕ) (p w : BooleanExpr) (attrs : List ValueExpr)
    (cs : Cursors) (a : Bytes) (as' bs : List Bytes) (joined kept : List TupleRow)
    (out : List Bytes)
    → h ≢ k
    → Holds (cs h) (a ∷ as')
    → Holds (cs k) bs
    → filter_rows d p (pairs 0 1 (new_row 2) (a ∷ as') bs) ≡ some joined
    → filter_rows d w joined ≡ some kept
    → project_rows m attrs kept ≡ some out
    → Gives
        (λ n.
          exec_select m d n
            (project
              (select (nested_loop_join (seq_scan h 0) (seq_scan k 1) p (new_row 2) ok ok) w)
              attrs
              (new_row 2))
            cs)
        (scanned 0 (new_row 1) out, ok)
unfolding prepare new_row
select_from_join m d h k p w attrs cs a as' bs joined kept out hk e eb j f o =
    let inner = join m d h k 0 1 p (new_row 2) in
    exec_select-Opens m d (project (select inner w) attrs (new_row 2)) cs
      (scanned 0 (new_row 1) out) refl
      (project-Opens m d (select inner w) attrs cs (new_row 2) (new_row 1) kept out
        (select-Opens m d inner w cs (new_row 2) joined kept
          (join-Opens m d h k p cs a as' bs joined hk e eb j) f)
        o (omega arith))
