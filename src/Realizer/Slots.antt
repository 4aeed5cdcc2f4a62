-- ===== src/Realizer/Slots.antt =====
-- What `CheckExpressionBase` leaves in `name2slot_`.
use dbms.Prelude.{
  ℕ, ◌≡◌, ◌≢◌, refl, Option, none, some, List, [], ◌∷◌, Bool, true, false, Bytes, get_elem?,
  if◌then◌else◌, Option-cases, arith, inl, inr,
}
use dbms.Prelude.Maps.{StdMap, find, insert, find-insert_self, find-insert_old, bytes_key, nat_key}
use dbms.Common.Memory.{◌>>=◌}
use dbms.Common.Define.{State, ok}
use dbms.Common.Relation.{Relation}
use dbms.Realizer.{
  Names, Check, ClauseType, Expression, column_reference, const_value, operation, SlotReference,
  check_reference, note_reference, check_expression, go_on, push_where, may_have_operation, resolve,
  choose, owners,
}

-- Every reference of an expression has its slot.
abbrev pub Known : StdMap ℕ SlotReference → Expression → Type 0
Known slots (column_reference ref table column) =
    (slot : SlotReference) × (find ref slots ≡ some slot)
Known slots (const_value v) = Unit
Known slots (operation op left right) = Known slots left × Known slots right

-- the slots that are there stay as they are
abbrev pub Grows : Names → Names → Type 0
Grows s t =
    (ref : ℕ) (slot : SlotReference)
    → find ref s.name2slot ≡ some slot
    → find ref t.name2slot ≡ some slot

-- A check keeps the slots there are, and `P` holds after it where it returned `kStateOK`.
abbrev pub Gains : (Names → Type 0) → Names → Option (State × Names) → Type 0
Gains P s none = Unit
Gains P s (some (state, t)) = Grows s t × (state ≡ ok → P t)

-- a condition that stays true while slots are added
abbrev pub Stays : (Names → Type 0) → Type 0
Stays P = (s t : Names) → Grows s t → P s → P t

pub Known-Stays : (e : Expression) → Stays λ s. Known s.name2slot e
Known-Stays (column_reference ref table column) s t g (slot, h) = (slot, g ref slot h)
Known-Stays (const_value v) s t g k = tt
Known-Stays (operation op left right) s t g (l, r) =
    (Known-Stays left s t g l, Known-Stays right s t g r)

Grows-trans : (s t u : Names) → Grows s t → Grows t u → Grows s u
Grows-trans s t u g h ref slot e = h ref slot (g ref slot e)

Gains-from :
    (P Q : Names → Type 0) (s t : Names) (r : Option (State × Names))
    → Grows s t
    → ((u : Names) → Grows t u → P u → Q u)
    → Gains P t r
    → Gains Q s r
Gains-from P Q s t none g f k = tt
Gains-from P Q s t (some (state, u)) g f (h, p) = (Grows-trans s t u g h, λ e. f u h (p e))

pub Gains-then :
    (P Q : Names → Type 0) (s : Names) (r : Option (State × Names)) (next : Check)
    → Stays P
    → Gains P s r
    → ((t : Names) → Gains Q t (next t))
    → Gains (λ t. P t × Q t) s (r >>= λ p. go_on p.0 next p.1)
Gains-then P Q s none next stays k h = tt
Gains-then P Q s (some (ok, t)) next stays (g, p) h =
    Gains-from Q (λ u. P u × Q u) s t (next t) g (λ u i q. (stays t u i (p refl), q)) (h t)
Gains-then P Q s (some (state, t)) next stays (g, p) h = (g, λ e. absurd (ground (arith, e)))

Gains-bind {ℓ} :
    {A : Type ℓ} (P : Names → Type 0) (s : Names) (o : Option A) (f : A → Option (State × Names))
    → ((a : A) → Gains P s (f a))
    → Gains P s (o >>= f)
Gains-bind P s none f h = tt
Gains-bind P s (some a) f h = h a

Gains-if :
    (P : Names → Type 0) (s : Names) (b : Bool) (r : Option (State × Names))
    → Gains P s r
    → Gains P s (if b then r else none)
Gains-if P s true r k = k
Gains-if P s false r k = tt

note_reference-Gains :
    (type : ClauseType) (ref : ℕ) (s : Names)
    → Gains (λ t. t.name2slot ≡ s.name2slot) s (note_reference type ref s)
unfolding note_reference
note_reference-Gains ClauseType.in_having ref s = tt
note_reference-Gains ClauseType.in_select ref s = (λ ref slot h. h, λ e. refl)
note_reference-Gains ClauseType.in_where ref s = (λ ref slot h. h, λ e. refl)
note_reference-Gains ClauseType.in_join_on ref s = (λ ref slot h. h, λ e. refl)
note_reference-Gains ClauseType.in_order_by ref s = (λ ref slot h. h, λ e. refl)
note_reference-Gains ClauseType.in_group_by ref s = (λ ref slot h. h, λ e. refl)

-- the slot that is put down, and those there were
find-insert_any :
    (ref : ℕ) (slot : SlotReference) (m : StdMap ℕ SlotReference)
    → (other : SlotReference) × (find ref (insert ref slot m) ≡ some other)
unfolding insert
find-insert_any ref slot m = elim (Option-cases (find ref m)) [
  | inl e ↦ (slot, find-insert_self ref slot m e)
  | inr (w, e) ↦ (w, rw (insert, e) e)
]

find-insert_kept :
    (ref j : ℕ) (slot w : SlotReference) (m : StdMap ℕ SlotReference)
    → find j m ≡ some w
    → find j (insert ref slot m) ≡ some w
unfolding insert
find-insert_kept ref j slot w m h = elim (Option-cases (find ref m)) [
  | inl e ↦ find-insert_old ref j slot w m e h
  | inr (v, e) ↦ rw (insert, e) h
]

choose-fails :
    (column message : Bytes) (found : List (Bytes × (Relation × ℕ)))
    → (choose column message found).0 ≡ none
    → (choose column message found).1 ≢ ok
unfolding choose
choose-fails column message [] h e = absurd (ground (arith, e))
choose-fails column message (owner ∷ []) h e = absurd (ground (arith, h))
choose-fails column message (owner ∷ other ∷ more) h e = absurd (ground (arith, e))

-- A reference that is not found has an error.
resolve-fails :
    (table column : Bytes) (s : Names)
    → (resolve table column s).0 ≡ none
    → (resolve table column s).1 ≢ ok
unfolding resolve
resolve-fails [] column s h e = choose-fails column s.message (owners column s.name2relation) h e
resolve-fails (x ∷ table) column s h e = absurd (ground (arith, h, e))

check_reference-Gains :
    (type : ClauseType) (ref : ℕ) (table column : Bytes) (s : Names)
    → Gains
        (λ t. Known t.name2slot (column_reference ref table column))
        s
        (check_reference type ref table column s)
unfolding check_reference
check_reference-Gains type ref table column s = elim (Option-cases ((resolve table column s).0)) [
  | inl e ↦ rw (check_reference, e) (λ j w h. h, λ f. absurd (resolve-fails table column s e f))
  | inr (owner, e) ↦
      rw (check_reference, e)
        (Gains-bind _ s (find owner.0 s.name2tuple_index) _ λ i.
          Gains-bind _ s (get_elem? owner.1.0.attributes owner.1.1) _ λ attr.
            let slot : SlotReference = record {
              tuple_index = i;
              slot_index = owner.1.1;
              data_type = attr.data_type;
            } in
            let t : Names = record s { name2slot = insert ref slot s.name2slot } in
            Gains-from (λ u. u.name2slot ≡ t.name2slot) _ s t (note_reference type ref t)
              (λ j w h. find-insert_kept ref j slot w s.name2slot h)
              (λ u g k. rw k (find-insert_any ref slot s.name2slot))
              (note_reference-Gains type ref t))
]

push_where-Grows :
    (type : ClauseType) (e : Expression) (s : Names)
    → Gains (λ t. Unit) s (some (ok, push_where type e s))
push_where-Grows ClauseType.in_where e s = (λ j w h. h, λ f. tt)
push_where-Grows ClauseType.in_having e s = (λ j w h. h, λ f. tt)
push_where-Grows ClauseType.in_select e s = (λ j w h. h, λ f. tt)
push_where-Grows ClauseType.in_join_on e s = (λ j w h. h, λ f. tt)
push_where-Grows ClauseType.in_order_by e s = (λ j w h. h, λ f. tt)
push_where-Grows ClauseType.in_group_by e s = (λ j w h. h, λ f. tt)

Gains-map :
    (P Q : Names → Type 0) (s : Names) (r : Option (State × Names))
    → ((u : Names) → P u → Q u)
    → Gains P s r
    → Gains Q s r
Gains-map P Q s none f k = tt
Gains-map P Q s (some (state, u)) f (h, p) = (h, λ e. f u (p e))

pub check_expression-Gains :
    (type : ClauseType) (e : Expression) (s : Names)
    → Gains (λ t. Known t.name2slot e) s (check_expression type e s)
unfolding check_expression
check_expression-Gains type (column_reference ref table column) s =
    check_reference-Gains type ref table column s
check_expression-Gains type (const_value v) s = (λ j w h. h, λ f. tt)
check_expression-Gains type (operation op left right) s =
    Gains-if (λ t. Known t.name2slot left × Known t.name2slot right) s (may_have_operation type) _
      (Gains-map (λ t. (Known t.name2slot left × Known t.name2slot right) × Unit) _ s _ (λ u k. k.0)
        (Gains-then (λ t. Known t.name2slot left × Known t.name2slot right) (λ t. Unit) s _
          (λ t. some (ok, push_where type (operation op left right) t))
          (Known-Stays (operation op left right))
          (Gains-then (λ t. Known t.name2slot left) (λ t. Known t.name2slot right) s
            (check_expression type left s) (check_expression type right) (Known-Stays left)
            (check_expression-Gains type left s) (check_expression-Gains type right))
          (push_where-Grows type (operation op left right))))
