-- ===== src/Executor/Projection/Columns.antt =====
-- The columns of the tuple that a projection makes.
use dbms.Prelude.{
  ℕ, zero, suc, ◌+◌, ◌*◌, ◌^◌, ◌≤◌, ◌<◌, ◌≡◌, refl, subst, ◌∙◌, some, List, [], ◌∷◌, Bytes, length,
  get_elem?, arith, inl, inr,
}
use dbms.Common.Memory.{Allocator, ◌>>=◌, write, bind_some}
use dbms.Common.Memory.Integers.{encode}
use dbms.Common.Memory.Writes.{write_all, write_all-some, Within, Apart}
use dbms.Common.Tuple.{get_slot, get_value, slot_bytes}
use dbms.Common.Tuple.Written.{slot-written, value-written}
use dbms.Common.Row.{TupleRow, get_tuple}
use dbms.Executor.Expression.{ValueExpr, slot_reference, string_of}
use dbms.Executor.Expression as Expression
use dbms.Executor.Projection.{values_of, total, projection_writes, projected}

values_of-length :
    (es : List ValueExpr) (row : TupleRow) (vs : List Bytes)
    → values_of es row ≡ some vs
    → length es ≡ length vs
unfolding values_of
values_of-length [] row vs h = ground (arith, h)
values_of-length (e ∷ es) row vs h =
    let (v, a, h₁) = bind_some (Expression.get_value e row) _ vs h in
    let (bytes, b, h₂) = bind_some (string_of v) _ vs h₁ in
    let (rest, c, h₃) = bind_some (values_of es row) _ vs h₂ in
    ground (arith, values_of-length es row rest c, h₃)

projection_writes-Within :
    (size i off : ℕ) (vs : List Bytes)
    → 4 * (i + length vs) ≤ size
    → off + total vs ≤ size
    → Within size (projection_writes i off vs)
unfolding projection_writes slot_bytes encode total
projection_writes-Within size i off [] h k = tt
projection_writes-Within size i off (v ∷ vs) h k = (
  omega arith,
  (
    omega arith,
    projection_writes-Within size (suc i) (off + length v) vs (omega arith) (omega arith),
  ),
)

-- The later writes are behind a range that ends before the slots and the values to come.
projection_writes-Apart_slot :
    (p n i off : ℕ) (vs : List Bytes)
    → p + n ≤ 4 * i
    → p + n ≤ off
    → Apart p n (projection_writes i off vs)
unfolding projection_writes slot_bytes encode
projection_writes-Apart_slot p n i off [] h k = tt
projection_writes-Apart_slot p n i off (v ∷ vs) h k = (
  inl h,
  (inl k, projection_writes-Apart_slot p n (suc i) (off + length v) vs (omega arith) (omega arith)),
)

-- The later writes are around a range between the slots and the values to come.
projection_writes-Apart_value :
    (p n i off : ℕ) (vs : List Bytes)
    → 4 * (i + length vs) ≤ p
    → p + n ≤ off
    → Apart p n (projection_writes i off vs)
unfolding projection_writes slot_bytes encode
projection_writes-Apart_value p n i off [] h k = tt
projection_writes-Apart_value p n i off (v ∷ vs) h k = (
  inr (omega arith),
  (
    inl k,
    projection_writes-Apart_value p n (suc i) (off + length v) vs (omega arith) (omega arith),
  ),
)

write_all-later :
    (w x : ℕ × Bytes) (ws : List (ℕ × Bytes)) (b : Bytes) {c : Bytes}
    → write_all (w ∷ x ∷ ws) b ≡ some c
    → (b' : Bytes) × (write_all ws b' ≡ some c)
unfolding write_all
write_all-later w x ws b {c} h =
    let (b₁, e, h₁) = bind_some (write w.0 w.1 b) _ c h in
    let (b₂, f, h₂) = bind_some (write x.0 x.1 b₁) _ c h₁ in (b₂, h₂)

-- the slot and the bytes of one column
abbrev IsColumn : ℕ → Bytes → Bytes → Type 0
IsColumn j v t =
    (o : ℕ) × (get_slot j t ≡ some (record { offset = o; length = length v }))
    × (get_value o (length v) t ≡ some v)

projection_writes-IsColumn_first :
    (i off : ℕ) (v : Bytes) (vs : List Bytes) (b : Bytes) {t : Bytes}
    → write_all (projection_writes i off (v ∷ vs)) b ≡ some t
    → 4 * (i + suc (length vs)) ≤ off
    → off + total (v ∷ vs) < 2 ^ 16
    → IsColumn i v t
unfolding projection_writes slot_bytes encode total
projection_writes-IsColumn_first i off v vs b h lo hi =
    let ws = projection_writes i off (v ∷ vs) in
    (
      off,
      slot-written ws b h 0 i off (length v) refl
          (
            inl (omega arith),
            projection_writes-Apart_slot (4 * i) 4 (suc i) (off + length v) vs (omega arith)
                (omega arith),
          )
          (omega arith) (omega arith),
      value-written ws b h 1 off v refl (
          projection_writes-Apart_value off (length v) (suc i) (off + length v) vs (omega arith)
            (omega arith)),
    )

projection_writes-IsColumn :
    (i off : ℕ) (vs : List Bytes) (b : Bytes) {t : Bytes} (n j : ℕ) (v : Bytes)
    → write_all (projection_writes i off vs) b ≡ some t
    → get_elem? vs n ≡ some v
    → j ≡ i + n
    → 4 * (i + length vs) ≤ off
    → off + total vs < 2 ^ 16
    → IsColumn j v t
unfolding projection_writes slot_bytes encode total
projection_writes-IsColumn i off [] b n j v h g e lo hi = ground (arith, g)
projection_writes-IsColumn i off (x ∷ vs) b {t} zero j v h g e lo hi =
    subst (λ k. IsColumn k v t) (let e' : i ≡ j = omega arith in e')
      (subst (λ w. IsColumn i w t) (let f : x ≡ v = ground (arith, g) in f)
        (projection_writes-IsColumn_first i off x vs b h lo hi))
projection_writes-IsColumn i off (x ∷ vs) b (suc n) j v h g e lo hi =
    let (b', h') = write_all-later _ _ (projection_writes (suc i) (off + length x) vs) b h in
    projection_writes-IsColumn (suc i) (off + length x) vs b' n j v h' g (e ∙ omega arith)
      (omega arith) (omega arith)

-- Where the values of a projection and their slots have fewer than 2 ^ 16 bytes, the projection
-- makes a tuple of them, and a reference to a column of that tuple has the value of its expression.
pub projected-column :
    (m : Allocator) (attrs : List ValueExpr) (row : TupleRow) (vs : List Bytes) (n : ℕ) (v : Bytes)
    → values_of attrs row ≡ some vs
    → get_elem? vs n ≡ some v
    → 4 * length attrs + total vs < 2 ^ 16
    → (tuple : Bytes) × (projected m attrs row ≡ some tuple)
      × (Expression.get_value (slot_reference 0 n) (some tuple ∷ []) >>= string_of ≡ some v)
unfolding projected Expression.get_value get_tuple string_of get_value
projected-column m attrs row vs n v h g bound =
    let slots = 4 * length attrs in
    let l = m.length-malloc (slots + total vs) in
    let k = values_of-length attrs row vs h in
    let (tuple, e, _) =
      write_all-some (projection_writes 0 slots vs) (m.malloc (slots + total vs))
        (projection_writes-Within _ 0 slots vs (omega (arith, l, k)) (omega (arith, l))) in
    let (o, s, r) =
      projection_writes-IsColumn 0 slots vs (m.malloc (slots + total vs)) n n v e g (omega arith)
        (omega (arith, k)) bound in
    (tuple, rw (h, ◌>>=◌) e, rw (s, ◌>>=◌) r)
