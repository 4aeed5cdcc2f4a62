-- ===== src/Executor/Plan/Faults.antt =====
-- Queries that evaluate a condition on a row that has not all of its tuples.
use dbms.Prelude.{ℕ, arith, ◌≡◌, ◌≢◌, refl, List, [], ◌∷◌, none, some, Bytes}
use dbms.Common.Memory.{Allocator}
use dbms.Common.Define.{ok, eof}
use dbms.Common.Row.{TupleRow, new_row}
use dbms.Executor.Expression.{ValueExpr, BooleanExpr, Doubles, evaluate}
use dbms.Executor.Plan.{
  Exec, seq_scan, project, nested_loop_join, Cursors, advance, rewind, returns, fault, get_next,
  next_right, open_exec, prepare, fetch, exec_select,
}
use dbms.Executor.Plan.Fuel.{
  Settles, Gives, Settles-suc, Settles-always, Settles-both, Settles-shared, Settles-three,
}
use dbms.Executor.Plan.Scans.{scan-Gives_end, scan-Gives_more, scan-Gives_open}
use dbms.Executor.Plan.Iterators.{Holds}
use dbms.Executor.Plan.Queries.{opened_cursors, opened_left, opened_right}

-- A plan faults whose projected node faults at its first row.
exec_select-fault :
    (m : Allocator) (d : Doubles) (e o : Exec) (attrs : List ValueExpr) (cs cs' : Cursors)
    (tuple_row row' : TupleRow)
    → prepare e ≡ ok
    → Gives (λ n. open_exec m d n e cs) (record { state = ok; exec = o; cursors = cs'; row = row' })
    → Settles (λ n. get_next m d n o cs' tuple_row) fault
    → Settles (λ n. exec_select m d n (project e attrs tuple_row) cs) fault
unfolding get_next prepare fetch exec_select
exec_select-fault m d e o attrs cs cs' tuple_row row' p g f =
    let opens =
      Settles-suc (λ n. open_exec m d n (project e attrs tuple_row) cs) (λ n. open_exec m d n e cs)
        _
        (returns
          (record { state = ok; exec = project o attrs tuple_row; cursors = cs'; row = row' }))
        g (λ n i. rw i refl) in
    let nexts =
      Settles-suc (λ n. get_next m d n (project o attrs tuple_row) cs' (new_row 1))
        (λ n. get_next m d n o cs' tuple_row) _ fault f (λ n i. rw i refl) in
    let fetches =
      Settles-suc (λ n. fetch m d n (project o attrs tuple_row) cs' (new_row 1))
        (λ n. get_next m d n (project o attrs tuple_row) cs' (new_row 1)) _ fault nexts
        (λ n i. rw i refl) in
    Settles-shared (λ n. exec_select m d n (project e attrs tuple_row) cs)
      (λ n. open_exec m d n (project e attrs tuple_row) cs)
      (λ n. fetch m d n (project o attrs tuple_row) cs' (new_row 1)) _ _ fault opens fetches
      λ n i j. rw (exec_select, prepare, p) (rw i (rw j refl))

-- The query `SELECT attrs FROM a JOIN b ON p` with an empty table `a` and a row in `b`, and
-- iterators that find the tuples of the two from the first on, evaluates the condition on that row
-- without a row of `a`: where it reads the row of `a`, the query is undefined.
pub select_from_empty_join :
    (m : Allocator) (d : Doubles) (h k : ℕ) (p : BooleanExpr) (attrs : List ValueExpr)
    (cs : Cursors) (b : Bytes) (bs : List Bytes)
    → h ≢ k
    → Holds (cs h) []
    → Holds (cs k) (b ∷ bs)
    → evaluate d p (none ∷ some b ∷ []) ≡ none
    → Settles
        (λ n.
          exec_select m d n
            (project
              (nested_loop_join (seq_scan h 0) (seq_scan k 1) p (new_row 2) ok ok)
              attrs
              (new_row 2))
            cs)
        fault
unfolding get_next prepare new_row evaluate
select_from_empty_join m d h k p attrs cs b bs hk e e' v =
    let cs₂ = opened_cursors h k cs in
    let inner = nested_loop_join (seq_scan h 0) (seq_scan k 1) p (new_row 2) in
    let row₁ = none ∷ some b ∷ [] in
    let right =
      scan-Gives_more m d k 1 cs₂ (new_row 2) b bs (omega arith)
        (opened_right h k cs (b ∷ bs) e') in
    let opens =
      Settles-three (λ n. open_exec m d n (inner ok ok) cs) (λ n. open_exec m d n (seq_scan h 0) cs)
        (λ n. open_exec m d n (seq_scan k 1) (rewind h cs))
        (λ n. get_next m d n (seq_scan h 0) cs₂ (new_row 2)) _ _ _
        (returns (record { state = ok; exec = inner eof ok; cursors = cs₂; row = [] }))
        (scan-Gives_open m d h 0 cs) (scan-Gives_open m d k 1 (rewind h cs))
        (scan-Gives_end m d h 0 cs₂ (new_row 2) (opened_left h k cs [] hk e))
        (λ n e₁ e₂ e₃. rw e₁ (rw e₂ (rw e₃ refl))) in
    let nexts =
      Settles-always
        (λ n.
          next_right m d n (seq_scan h 0) (seq_scan k 1) p eof ok (advance k cs₂) row₁ (new_row 2))
        fault (λ n. rw v refl) in
    exec_select-fault m d (inner ok ok) (inner eof ok) attrs cs cs₂ (new_row 2) [] refl opens (
      Settles-both (λ n. get_next m d n (inner eof ok) cs₂ (new_row 2))
        (λ n. get_next m d n (seq_scan k 1) cs₂ (new_row 2))
        (λ n.
          next_right m d n (seq_scan h 0) (seq_scan k 1) p eof ok (advance k cs₂) row₁ (new_row 2))
        _ _ fault right nexts λ n i j. rw i j)
