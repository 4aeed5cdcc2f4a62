-- ===== src/Executor/Plan/Fuel.antt =====
-- Calls that return once there is fuel enough, and the rows that a node delivers.
use dbms.Prelude.{ℕ, zero, suc, ◌+◌, ◌≤◌, ◌≡◌, refl, List, [], ◌∷◌, arith}
use dbms.Common.Memory.{Allocator}
use dbms.Common.Define.{ok, eof}
use dbms.Common.Row.{TupleRow, new_row}
use dbms.Executor.Expression.{Doubles}
use dbms.Executor.Plan.{
  Exec, Cursors, Run, returns, get_next, open_exec, prepare, fetch, exec_select,
}

-- From some fuel on, the call comes to this.
abbrev pub Settles {ℓ} : {A : Type ℓ} → (ℕ → Run A) → Run A → Type ℓ
Settles f r = (enough : ℕ) × ((n : ℕ) → enough ≤ n → f n ≡ r)

-- From some fuel on, the call returns this.
abbrev pub Gives {ℓ} : {A : Type ℓ} → (ℕ → Run A) → A → Type ℓ
Gives f a = Settles f (returns a)

after_suc {ℓ} :
    {A : Type ℓ} (f : ℕ → Run A) (r : Run A) (enough : ℕ)
    → ((n : ℕ) → enough ≤ n → f (suc n) ≡ r)
    → (n : ℕ) → suc enough ≤ n
    → f n ≡ r
after_suc f r enough h zero l = absurd (omega arith)
after_suc f r enough h (suc n) l = h n (omega arith)

pub Settles-always {ℓ} :
    {A : Type ℓ} (f : ℕ → Run A) (r : Run A) → ((n : ℕ) → f (suc n) ≡ r) → Settles f r
Settles-always f r h = (1, after_suc f r 0 λ n l. h n)

pub Settles-suc {ℓ κ} :
    {A : Type ℓ} {B : Type κ} (f : ℕ → Run B) (g : ℕ → Run A) (a : Run A) (r : Run B)
    → Settles g a
    → ((n : ℕ) → g n ≡ a → f (suc n) ≡ r)
    → Settles f r
Settles-suc f g a r (enough, h) step = (suc enough, after_suc f r enough λ n l. step n (h n l))

pub Settles-both {ℓ κ μ} :
    {A : Type ℓ} {B : Type κ} {C : Type μ} (f : ℕ → Run C) (g : ℕ → Run A) (h : ℕ → Run B)
    (a : Run A) (b : Run B) (r : Run C)
    → Settles g a
    → Settles h b
    → ((n : ℕ) → g n ≡ a → h n ≡ b → f (suc n) ≡ r)
    → Settles f r
Settles-both f g h a b r (i, p) (j, q) step =
    (suc (i + j), after_suc f r (i + j) λ n l. step n (p n (omega arith)) (q n (omega arith)))

pub Settles-three {ℓ κ μ ν} :
    {A : Type ℓ} {B : Type κ} {C : Type μ} {D : Type ν} (f : ℕ → Run D) (g : ℕ → Run A)
    (h : ℕ → Run B) (i : ℕ → Run C) (a : Run A) (b : Run B) (c : Run C) (r : Run D)
    → Settles g a
    → Settles h b
    → Settles i c
    → ((n : ℕ) → g n ≡ a → h n ≡ b → i n ≡ c → f (suc n) ≡ r)
    → Settles f r
Settles-three f g h i a b c r (j, p) (k, q) (l, s) step = (
  suc (j + k + l),
  after_suc f r (j + k + l)
      λ n le. step n (p n (omega arith)) (q n (omega arith)) (s n (omega arith)),
)

pub Settles-shared {ℓ κ μ} :
    {A : Type ℓ} {B : Type κ} {C : Type μ} (f : ℕ → Run C) (g : ℕ → Run A) (h : ℕ → Run B)
    (a : Run A) (b : Run B) (r : Run C)
    → Settles g a
    → Settles h b
    → ((n : ℕ) → g n ≡ a → h n ≡ b → f n ≡ r)
    → Settles f r
Settles-shared f g h a b r (i, p) (j, q) step =
    (i + j, λ n l. step n (p n (omega arith)) (q n (omega arith)))

-- Called again and again, with the row that it left, the node returns these rows and then the end.
pub data Delivers (m : Allocator) (d : Doubles)
    : Exec → Cursors → TupleRow → List TupleRow → Type 0 where
  finish :
      {e : Exec} {cs : Cursors} {row : TupleRow} (e' : Exec) (cs' : Cursors) (row' : TupleRow)
      → Gives
          (λ n. get_next m d n e cs row)
          (record { state = eof; exec = e'; cursors = cs'; row = row' })
      → Delivers m d e cs row []
  next :
      {e : Exec} {cs : Cursors} {row : TupleRow} (e' : Exec) (cs' : Cursors) (row' : TupleRow)
      {rows : List TupleRow}
      → Gives
          (λ n. get_next m d n e cs row)
          (record { state = ok; exec = e'; cursors = cs'; row = row' })
      → Delivers m d e' cs' row' rows
      → Delivers m d e cs row (row' ∷ rows)

pub fetch-Delivers :
    (m : Allocator) (d : Doubles) {e : Exec} {cs : Cursors} {row : TupleRow} {rows : List TupleRow}
    → Delivers m d e cs row rows
    → Gives (λ n. fetch m d n e cs row) (rows, eof)
unfolding fetch
fetch-Delivers m d {e} {cs} {row} (finish e' cs' row' g) =
    Settles-suc (λ n. fetch m d n e cs row) (λ n. get_next m d n e cs row) _ _ g λ n h. rw h refl
fetch-Delivers m d {e} {cs} {row} (next e' cs' row' g rest) =
    Settles-both (λ n. fetch m d n e cs row) (λ n. get_next m d n e cs row)
      (λ n. fetch m d n e' cs' row') _ _ _ g (fetch-Delivers m d rest) λ n h k. rw h (rw k refl)

-- The opened node delivers these rows into this row.
abbrev pub Opens : Allocator → Doubles → Exec → Cursors → TupleRow → List TupleRow → Type 0
Opens m d e cs row rows =
    (o : Exec) × (cs' : Cursors) × (row' : TupleRow) × Gives (λ n. open_exec m d n e cs)
      (record { state = ok; exec = o; cursors = cs'; row = row' })
    × Delivers m d o cs' row rows

-- `ExecSelect` sends the rows that the opened plan delivers, all of them, in their order.
pub exec_select-Opens :
    (m : Allocator) (d : Doubles) (e : Exec) (cs : Cursors) (rows : List TupleRow)
    → prepare e ≡ ok
    → Opens m d e cs (new_row 1) rows
    → Gives (λ n. exec_select m d n e cs) (rows, ok)
unfolding exec_select
exec_select-Opens m d e cs rows p (o, cs', row', opened, rest) =
    Settles-shared (λ n. exec_select m d n e cs) (λ n. open_exec m d n e cs)
      (λ n. fetch m d n o cs' (new_row 1)) _ _ _ opened (fetch-Delivers m d rest)
      λ n h k. rw (exec_select, p) (rw h (rw k refl))
