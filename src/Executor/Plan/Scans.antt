-- ===== src/Executor/Plan/Scans.antt =====
-- What a scan, a selection and a projection deliver.
use dbms.Prelude.{
  ℕ, ◌<◌, ◌≡◌, refl, List, [], ◌∷◌, Option, some, true, false, arith, sym, Bytes, set, length,
  length-set, set-set_self, lt→ltb, if◌then◌else◌, subst, Option-cases, inl, inr, ◌⊎◌,
}
use dbms.Common.Memory.{Allocator}
use dbms.Common.Memory as Memory
use dbms.Common.Define.{ok, eof}
use dbms.Common.Row.{TupleRow, set_tuple}
use dbms.Executor.Expression.{ValueExpr, BooleanExpr, Doubles, evaluate}
use dbms.Executor.Projection.{projected}
use dbms.Executor.Plan.{
  Exec, seq_scan, select, project, Cursors, advance, rewind, returns, get_next, open_exec,
  scan_next,
}
use dbms.Executor.Plan.Iterators.{IsAt, advance-IsAt}
use dbms.Executor.Plan.Fuel.{
  Gives, Settles-always, Settles-suc, Settles-both, Delivers, finish, next,
}

-- The rows that a scan makes of the tuples of its relation.
abbrev pub scanned : ℕ → TupleRow → List Bytes → List TupleRow
scanned i row [] = []
scanned i row (t ∷ ts) = set row i (some t) ∷ scanned i row ts

-- The rows for which a condition holds, in their order; undefined where it is undefined for one.
abbrev pub filter_rows : Doubles → BooleanExpr → List TupleRow → Option (List TupleRow)
filter_rows d p [] = some []
filter_rows d p (row ∷ rows) =
    Memory.◌>>=◌ (evaluate d p row)
      λ b. Memory.◌>>=◌ (filter_rows d p rows) λ kept. some (if b then row ∷ kept else kept)

scanned-set :
    (i : ℕ) (row : TupleRow) (t : Bytes) (ts : List Bytes)
    → scanned i (set row i (some t)) ts ≡ scanned i row ts
scanned-set i row t [] = refl
scanned-set i row t (u ∷ ts) =
    rw (set-set_self row i (some t) (some u)) (rw (scanned-set i row t ts) refl)

scan_next-end :
    (handler i : ℕ) (cs : Cursors) (row : TupleRow)
    → IsAt (cs handler) []
    → scan_next handler i cs row
      ≡ returns (record { state = eof; exec = seq_scan handler i; cursors = cs; row = row })
unfolding scan_next
scan_next-end handler i cs row h = rw (scan_next, h) refl

scan_next-more :
    (handler i : ℕ) (cs : Cursors) (row : TupleRow) (t : Bytes) (ts : List Bytes)
    → i < length row
    → IsAt (cs handler) (t ∷ ts)
    → scan_next handler i cs row
      ≡ returns (record {
        state = ok;
        exec = seq_scan handler i;
        cursors = advance handler cs;
        row = set row i (some t);
      })
unfolding scan_next set_tuple
scan_next-more handler i cs row t ts l (v, e, rest) =
    rw (scan_next, v) (rw e (rw (set_tuple, lt→ltb i (length row) l) refl))

pub scan-Gives_end :
    (m : Allocator) (d : Doubles) (handler i : ℕ) (cs : Cursors) (row : TupleRow)
    → IsAt (cs handler) []
    → Gives
        (λ n. get_next m d n (seq_scan handler i) cs row)
        (record { state = eof; exec = seq_scan handler i; cursors = cs; row = row })
unfolding get_next
scan-Gives_end m d handler i cs row h =
    Settles-always (λ n. get_next m d n (seq_scan handler i) cs row) _
      λ n. scan_next-end handler i cs row h

pub scan-Gives_more :
    (m : Allocator) (d : Doubles) (handler i : ℕ) (cs : Cursors) (row : TupleRow) (t : Bytes)
    (ts : List Bytes)
    → i < length row
    → IsAt (cs handler) (t ∷ ts)
    → Gives
        (λ n. get_next m d n (seq_scan handler i) cs row)
        (record {
          state = ok;
          exec = seq_scan handler i;
          cursors = advance handler cs;
          row = set row i (some t);
        })
unfolding get_next
scan-Gives_more m d handler i cs row t ts l h =
    Settles-always (λ n. get_next m d n (seq_scan handler i) cs row) _
      λ n. scan_next-more handler i cs row t ts l h

pub scan-Gives_open :
    (m : Allocator) (d : Doubles) (handler i : ℕ) (cs : Cursors)
    → Gives
        (λ n. open_exec m d n (seq_scan handler i) cs)
        (record { state = ok; exec = seq_scan handler i; cursors = rewind handler cs; row = [] })
unfolding get_next
scan-Gives_open m d handler i cs =
    Settles-always (λ n. open_exec m d n (seq_scan handler i) cs) _ λ n. refl

-- A scan delivers what its cursor has left, one tuple in each row.
pub scan-Delivers :
    (m : Allocator) (d : Doubles) (handler i : ℕ) (cs : Cursors) (row : TupleRow) (ts : List Bytes)
    → i < length row
    → IsAt (cs handler) ts
    → Delivers m d (seq_scan handler i) cs row (scanned i row ts)
scan-Delivers m d handler i cs row [] l h =
    finish (seq_scan handler i) cs row (scan-Gives_end m d handler i cs row h)
scan-Delivers m d handler i cs row (t ∷ ts) l h =
    let row' = set row i (some t) in
    next (seq_scan handler i) (advance handler cs) row'
      (scan-Gives_more m d handler i cs row t ts l h)
      (subst (λ rows. Delivers m d (seq_scan handler i) (advance handler cs) row' rows)
        (scanned-set i row t ts)
        (scan-Delivers m d handler i (advance handler cs) row' ts (rw (length-set row i (some t)) l)
          (advance-IsAt handler cs t ts h)))

select-reject :
    (m : Allocator) (d : Doubles) (e e' : Exec) (p : BooleanExpr) (cs cs' : Cursors)
    (row row' : TupleRow) (rows : List TupleRow)
    → Gives
        (λ n. get_next m d n e cs row)
        (record { state = ok; exec = e'; cursors = cs'; row = row' })
    → evaluate d p row' ≡ some false
    → Delivers m d (select e' p) cs' row' rows
    → Delivers m d (select e p) cs row rows
unfolding get_next evaluate
select-reject m d e e' p cs cs' row row' rows g h (finish e₁ cs₁ row₁ k) = finish e₁ cs₁ row₁ (
    Settles-both (λ n. get_next m d n (select e p) cs row) (λ n. get_next m d n e cs row)
      (λ n. get_next m d n (select e' p) cs' row') _ _ _ g k λ n i j. rw i (rw h j))
select-reject m d e e' p cs cs' row row' rows g h (next e₁ cs₁ row₁ k rest) =
    next e₁ cs₁ row₁
      (Settles-both (λ n. get_next m d n (select e p) cs row) (λ n. get_next m d n e cs row)
        (λ n. get_next m d n (select e' p) cs' row') _ _ _ g k λ n i j. rw i (rw h j))
      rest

-- The two ways to filter a list that is not empty.
abbrev pub FiltersCons : Doubles → BooleanExpr → TupleRow → List TupleRow → List TupleRow → Type 0
FiltersCons d p r rows kept =
    (rest : List TupleRow) × (filter_rows d p rows ≡ some rest)
    × (((evaluate d p r ≡ some true) × (kept ≡ r ∷ rest))
        ⊎ ((evaluate d p r ≡ some false) × (kept ≡ rest)))

pub filter_rows-cons :
    (d : Doubles) (p : BooleanExpr) (r : TupleRow) (rows kept : List TupleRow)
    → filter_rows d p (r ∷ rows) ≡ some kept
    → FiltersCons d p r rows kept
filter_rows-cons d p r rows kept h =
    ground (arith, Option-cases (evaluate d p r), Option-cases (filter_rows d p rows))

-- A selection delivers those rows of its node for which the condition holds.
pub select-Delivers :
    (m : Allocator) (d : Doubles) (e : Exec) (p : BooleanExpr) (cs : Cursors) (row : TupleRow)
    (rows kept : List TupleRow)
    → Delivers m d e cs row rows
    → filter_rows d p rows ≡ some kept
    → Delivers m d (select e p) cs row kept
unfolding get_next
select-Delivers m d e p cs row [] kept (finish e' cs' row' g) h =
    subst (λ k. Delivers m d (select e p) cs row k) (ground arith)
      (finish (select e' p) cs' row' (
        Settles-suc (λ n. get_next m d n (select e p) cs row) (λ n. get_next m d n e cs row) _ _ g
          λ n i. rw i refl))
select-Delivers m d e p cs row (r ∷ rows) kept (next e' cs' row' g rest) h =
    let (rest', e₁, way) = filter_rows-cons d p r rows kept h in
    elim way [
      | inl (t, k) ↦
          subst (λ l. Delivers m d (select e p) cs row l) (sym k)
            (next (select e' p) cs' r
              (Settles-suc (λ n. get_next m d n (select e p) cs row) (λ n. get_next m d n e cs row)
                _ _ g λ n i. rw i (rw t refl))
              (select-Delivers m d e' p cs' r rows rest' rest e₁))
      | inr (f, k) ↦
          subst (λ l. Delivers m d (select e p) cs row l) (sym k)
            (select-reject m d e e' p cs cs' row r rest' g f
              (select-Delivers m d e' p cs' r rows rest' rest e₁))
    ]

-- The tuples that a projection makes of rows; undefined where it is undefined for one.
abbrev pub project_rows : Allocator → List ValueExpr → List TupleRow → Option (List Bytes)
project_rows m attrs [] = some []
project_rows m attrs (row ∷ rows) =
    Memory.◌>>=◌ (projected m attrs row)
      λ t. Memory.◌>>=◌ (project_rows m attrs rows) λ ts. some (t ∷ ts)

project_rows-cons :
    (m : Allocator) (attrs : List ValueExpr) (r : TupleRow) (rows : List TupleRow)
    (out : List Bytes)
    → project_rows m attrs (r ∷ rows) ≡ some out
    → (t : Bytes) × (ts : List Bytes) × (projected m attrs r ≡ some t)
      × (project_rows m attrs rows ≡ some ts)
      × (out ≡ t ∷ ts)
project_rows-cons m attrs r rows out h =
    ground (arith, Option-cases (projected m attrs r), Option-cases (project_rows m attrs rows))

-- A projection delivers a row for each row of its node: the tuple that it makes of that row.
pub project-Delivers :
    (m : Allocator) (d : Doubles) (e : Exec) (attrs : List ValueExpr) (cs : Cursors)
    (tuple_row row : TupleRow) (rows : List TupleRow) (out : List Bytes)
    → Delivers m d e cs tuple_row rows
    → project_rows m attrs rows ≡ some out
    → 0 < length row
    → Delivers m d (project e attrs tuple_row) cs row (scanned 0 row out)
unfolding get_next set_tuple
project-Delivers m d e attrs cs tuple_row row [] out (finish e' cs' row' g) h l =
    subst (λ k. Delivers m d (project e attrs tuple_row) cs row (scanned 0 row k)) {x = []}
      (ground arith)
      (finish (project e' attrs row') cs' row (
        Settles-suc (λ n. get_next m d n (project e attrs tuple_row) cs row)
          (λ n. get_next m d n e cs tuple_row) _ _ g λ n i. rw i refl))
project-Delivers m d e attrs cs tuple_row row (r ∷ rows) out (next e' cs' row' g rest) h l =
    let (t, ts, made, e₁, o) = project_rows-cons m attrs r rows out h in
    let row₁ = set row 0 (some t) in
    subst (λ k. Delivers m d (project e attrs tuple_row) cs row (scanned 0 row k)) (sym o)
      (next (project e' attrs r) cs' row₁
        (Settles-suc (λ n. get_next m d n (project e attrs tuple_row) cs row)
          (λ n. get_next m d n e cs tuple_row) _ _ g
          λ n i. rw i (rw made (rw (set_tuple, lt→ltb 0 (length row) l) refl)))
        (subst (λ k. Delivers m d (project e' attrs r) cs' row₁ k) (scanned-set 0 row t ts)
          (project-Delivers m d e' attrs cs' r row₁ rows ts rest e₁
            (rw (length-set row 0 (some t)) l))))
