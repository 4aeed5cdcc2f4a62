-- ===== src/Executor/Plan/Joins.antt =====
-- `NestedLoopJoin` over two scans.
use dbms.Prelude.{
  ℕ, ◌<◌, ◌≡◌, ◌≢◌, refl, ap, List, [], ◌∷◌, ◌++◌, some, true, false, arith, sym, ◌∙◌, Bytes, set,
  length, length-set, set-set_self, set-set_ne, subst, inl, inr, drop-length, le→leb,
}
use mathlib.Core.List.{append-nil}
use dbms.Common.Memory.{Allocator}
use dbms.Common.Define.{State, ok, eof}
use dbms.Common.Row.{TupleRow, copy_to}
use dbms.Executor.Expression.{BooleanExpr, Doubles, evaluate}
use dbms.Executor.Plan.{
  Exec, seq_scan, nested_loop_join, Cursors, advance, rewind, Result, get_next, next_right,
  open_exec,
}
use dbms.Executor.Plan.Iterators.{IsAt, Holds, move-IsAt_ne, move-Holds, advance-IsAt, rewind-IsAt}
use dbms.Executor.Plan.Fuel.{
  Gives, Settles-always, Settles-suc, Settles-both, Settles-three, Delivers, finish, next,
}
use dbms.Executor.Plan.Scans.{
  scanned, filter_rows, filter_rows-cons, scan-Gives_end, scan-Gives_more, scan-Gives_open,
}

-- The rows of a nested loop: for each tuple of the left relation, one with each of the right.
abbrev pub pairs : ℕ → ℕ → TupleRow → List Bytes → List Bytes → List TupleRow
pairs i j row [] bs = []
pairs i j row (a ∷ as') bs = scanned j (set row i (some a)) bs ++ pairs i j row as' bs

Delivers-later :
    (m : Allocator) (d : Doubles) (e e₁ : Exec) (cs cs₁ : Cursors) (row row₁ : TupleRow)
    (rows : List TupleRow)
    → ((r : Result)
        → Gives (λ n. get_next m d n e₁ cs₁ row₁) r
        → Gives (λ n. get_next m d n e cs row) r)
    → Delivers m d e₁ cs₁ row₁ rows
    → Delivers m d e cs row rows
Delivers-later m d e e₁ cs cs₁ row row₁ rows later (finish e' cs' row' g) =
    finish e' cs' row' (later _ g)
Delivers-later m d e e₁ cs cs₁ row row₁ rows later (next e' cs' row' g rest) =
    next e' cs' row' (later _ g) rest

copy_to-same : (xs ys : TupleRow) → length xs ≡ length ys → copy_to xs ys ≡ xs
unfolding copy_to
copy_to-same xs ys h =
    rw (copy_to, h)
      (rw (le→leb (length ys) (length ys) (omega arith)) (rw (drop-length ys) (append-nil xs)))

module _ (m : Allocator) (d : Doubles) (h k i j : ℕ) (p : BooleanExpr) where
  abbrev pub join : TupleRow → Exec
  join row_ = nested_loop_join (seq_scan h i) (seq_scan k j) p row_ ok ok

  round-Gives :
      (cs cs₁ : Cursors) (row_ row₁ row : TupleRow) (s : State) (r : Result)
      → Gives
          (λ n. get_next m d n (seq_scan k j) cs row_)
          (record { state = s; exec = seq_scan k j; cursors = cs₁; row = row₁ })
      → Gives (λ n. next_right m d n (seq_scan h i) (seq_scan k j) p ok s cs₁ row₁ row) r
      → Gives (λ n. get_next m d n (join row_) cs row) r
  unfolding get_next
  round-Gives cs cs₁ row_ row₁ row s r g g' =
      Settles-both (λ n. get_next m d n (join row_) cs row)
        (λ n. get_next m d n (seq_scan k j) cs row_)
        (λ n. next_right m d n (seq_scan h i) (seq_scan k j) p ok s cs₁ row₁ row) _ _ _ g g'
        λ n e e'. rw e e'

  next_right-accept :
      (cs : Cursors) (row_ row : TupleRow)
      → evaluate d p row_ ≡ some true
      → length row_ ≡ length row
      → Gives
          (λ n. next_right m d n (seq_scan h i) (seq_scan k j) p ok ok cs row_ row)
          (record { state = ok; exec = join row_; cursors = cs; row = row_ })
  unfolding get_next evaluate
  next_right-accept cs row_ row t l =
      Settles-always (λ n. next_right m d n (seq_scan h i) (seq_scan k j) p ok ok cs row_ row) _
        λ n. rw t (rw (copy_to-same row_ row l) refl)

  next_right-reject :
      (cs : Cursors) (row_ row : TupleRow) (r : Result)
      → evaluate d p row_ ≡ some false
      → Gives (λ n. get_next m d n (join row_) cs row) r
      → Gives (λ n. next_right m d n (seq_scan h i) (seq_scan k j) p ok ok cs row_ row) r
  unfolding get_next evaluate
  next_right-reject cs row_ row r t g =
      Settles-suc (λ n. next_right m d n (seq_scan h i) (seq_scan k j) p ok ok cs row_ row)
        (λ n. get_next m d n (join row_) cs row) _ _ g λ n e. rw t e

  next_right-left :
      (cs : Cursors) (row_ row : TupleRow) (a : Bytes) (as' : List Bytes) (r : Result)
      → i < length row_
      → IsAt (cs h) (a ∷ as')
      → Gives (λ n. get_next m d n (join (set row_ i (some a))) (rewind k (advance h cs)) row) r
      → Gives (λ n. next_right m d n (seq_scan h i) (seq_scan k j) p ok eof cs row_ row) r
  unfolding get_next
  next_right-left cs row_ row a as' r l e g =
      Settles-three (λ n. next_right m d n (seq_scan h i) (seq_scan k j) p ok eof cs row_ row)
        (λ n. get_next m d n (seq_scan h i) cs row_)
        (λ n. open_exec m d n (seq_scan k j) (advance h cs))
        (λ n. get_next m d n (join (set row_ i (some a))) (rewind k (advance h cs)) row) _ _ _ _
        (scan-Gives_more m d h i cs row_ a as' l e) (scan-Gives_open m d k j (advance h cs)) g
        λ n e₁ e₂ e₃. rw e₁ (rw e₂ e₃)

  next_right-end :
      (cs : Cursors) (row_ row : TupleRow)
      → IsAt (cs h) []
      → Gives
          (λ n. next_right m d n (seq_scan h i) (seq_scan k j) p ok eof cs row_ row)
          (record {
            state = eof;
            exec = nested_loop_join (seq_scan h i) (seq_scan k j) p row_ eof eof;
            cursors = cs;
            row = row;
          })
  unfolding get_next
  next_right-end cs row_ row e =
      Settles-suc (λ n. next_right m d n (seq_scan h i) (seq_scan k j) p ok eof cs row_ row)
        (λ n. get_next m d n (seq_scan h i) cs row_) _ _ (scan-Gives_end m d h i cs row_ e)
        λ n e₁. rw e₁ refl

  -- What a row must have in common with the row that the join began with.
  abbrev pub Follows : TupleRow → TupleRow → Type 0
  Follows base row_ =
      (length row_ ≡ length base)
      × ((a b : Bytes)
          → set (set row_ i (some a)) j (some b) ≡ set (set base i (some a)) j (some b))

  Follows-right :
      (base row_ : TupleRow) (b : Bytes)
      → i ≢ j
      → Follows base row_
      → Follows base (set row_ j (some b))
  Follows-right base row_ b ne (l, f) = (
    rw (length-set row_ j (some b)) l,
    λ a c.
        ap (λ r. set r j (some c)) (sym (set-set_ne row_ i j (some a) (some b) ne))
        ∙ set-set_self (set row_ i (some a)) j (some b) (some c)
        ∙ f a c,
  )

  Follows-left :
      (base row_ : TupleRow) (a : Bytes) → Follows base row_ → Follows base (set row_ i (some a))
  Follows-left base row_ a (l, f) = (
    rw (length-set row_ i (some a)) l,
    λ c b. ap (λ r. set r j (some b)) (set-set_self row_ i (some a) (some c)) ∙ f c b,
  )

  pub join-Delivers :
      (base : TupleRow) (as' rs bs : List Bytes) (cs : Cursors) (row_ row cur : TupleRow)
      (kept : List TupleRow)
      → h ≢ k
      → i ≢ j
      → i < length base
      → j < length base
      → length row ≡ length base
      → Follows base row_
      → ((b : Bytes) → set row_ j (some b) ≡ set cur j (some b))
      → IsAt (cs h) as'
      → IsAt (cs k) rs
      → Holds (cs k) bs
      → filter_rows d p (scanned j cur rs ++ pairs i j base as' bs) ≡ some kept
      → Delivers m d (join row_) cs row kept
  join-Delivers base [] [] bs cs row_ row cur kept hk ij li lj lr f c er ek eb w =
      subst (λ l. Delivers m d (join row_) cs row l) {x = []} (ground arith)
        (finish (nested_loop_join (seq_scan h i) (seq_scan k j) p row_ eof eof) cs row (
          round-Gives cs cs row_ row_ row eof _ (scan-Gives_end m d k j cs row_ ek)
            (next_right-end cs row_ row er)))
  join-Delivers base (a ∷ as') [] bs cs row_ row cur kept hk ij li lj lr f c er ek eb w =
      let row₂ = set row_ i (some a) in
      let cs₁ = advance h cs in
      let cs₂ = rewind k cs₁ in
      Delivers-later m d (join row_) (join row₂) cs cs₂ row row kept
        (λ r g.
          round-Gives cs cs row_ row_ row eof r (scan-Gives_end m d k j cs row_ ek)
            (next_right-left cs row_ row a as' r (rw f.0 li) er g))
        (join-Delivers base as' bs bs cs₂ row₂ row (set base i (some a)) kept hk ij li lj lr
          (Follows-left base row_ a f) (f.1 a)
          (move-IsAt_ne k h _ cs₁ as' hk (advance-IsAt h cs a as' er))
          (rewind-IsAt k cs₁ bs (move-Holds h k _ cs bs eb))
          (move-Holds k k _ cs₁ bs (move-Holds h k _ cs bs eb)) w)
  join-Delivers base as' (b ∷ rs) bs cs row_ row cur kept hk ij li lj lr f c er ek eb w =
      let row₁ = set row_ j (some b) in
      let cs₁ = advance k cs in
      let f₁ = Follows-right base row_ b ij f in
      let (rest, e, way) =
        filter_rows-cons d p (set cur j (some b)) (scanned j cur rs ++ pairs i j base as' bs) kept
          w in
      let deliver = λ (row' : TupleRow) (l : length row' ≡ length base).
        join-Delivers base as' rs bs cs₁ row₁ row' cur rest hk ij li lj l f₁
          (λ b'. set-set_self row_ j (some b) (some b') ∙ c b') (move-IsAt_ne k h _ cs as' hk er)
          (advance-IsAt k cs b rs ek) (move-Holds k k _ cs bs eb) e in
      let scan = scan-Gives_more m d k j cs row_ b rs (rw f.0 lj) ek in
      elim way [
        | inl (t, o) ↦
            subst (λ l. Delivers m d (join row_) cs row l) (ap (λ r. r ∷ rest) (c b) ∙ sym o)
              (next (join row₁) cs₁ row₁
                (round-Gives cs cs₁ row_ row₁ row ok _ scan
                  (next_right-accept cs₁ row₁ row (ap (evaluate d p) (c b) ∙ t) (f₁.0 ∙ sym lr)))
                (deliver row₁ f₁.0))
        | inr (t, o) ↦
            subst (λ l. Delivers m d (join row_) cs row l) (sym o)
              (Delivers-later m d (join row_) (join row₁) cs cs₁ row row rest
                (λ r g.
                  round-Gives cs cs₁ row_ row₁ row ok r scan
                    (next_right-reject cs₁ row₁ row r (ap (evaluate d p) (c b) ∙ t) g))
                (deliver row lr))
      ]
