-- ===== src/Executor/Projection.antt =====
-- The two loops of `Project::GetNext` (src/executor/project.cpp): the sizes of the values, then the
-- slots and the values.
pub mod Columns
use dbms.Prelude.{ℕ, suc, ◌+◌, ◌*◌, Option, some, List, [], ◌∷◌, Bytes, length}
use dbms.Common.Memory.{Allocator, ◌>>=◌}
use dbms.Common.Memory.Writes.{write_all}
use dbms.Common.Tuple.{sizeof_slot, set_slot, set_value}
use dbms.Common.Row.{TupleRow}
use dbms.Executor.Expression.{ValueExpr, get_value, string_of}

unfoldable pub values_of : List ValueExpr → TupleRow → Option (List Bytes)
values_of [] row = some []
values_of (e ∷ es) row = do
  v ← get_value e row
  bytes ← string_of v
  rest ← values_of es row
  some (bytes ∷ rest)

unfoldable pub total : List Bytes → ℕ
total [] = 0
total (v ∷ vs) = length v + total vs

unfoldable pub projection_writes : ℕ → ℕ → List Bytes → List (ℕ × Bytes)
projection_writes i off [] = []
projection_writes i off (v ∷ vs) =
    set_slot i off (length v) ∷ set_value off v ∷ projection_writes (suc i) (off + length v) vs

-- the tuple that `Project` puts into the caller's row
unfoldable pub projected : Allocator → List ValueExpr → TupleRow → Option Bytes
unfolding values_of projection_writes total
projected m attrs row = do
  vs ← values_of attrs row
  let slots = sizeof_slot * length attrs
  write_all (projection_writes 0 slots vs) (m.malloc (slots + total vs))
