-- ===== src/Realizer/Kept.antt =====
-- `CheckExpressionBase` does not touch the numbers of the tables.
use dbms.Prelude.{
  ℕ, ◌≡◌, refl, ◌∙◌, Option, none, some, Bool, true, false, Bytes, get_elem?, if◌then◌else◌,
  Option-cases, inl, inr,
}
use dbms.Prelude.Maps.{find, insert, bytes_key, nat_key}
use dbms.Common.Memory.{◌>>=◌}
use dbms.Common.Define.{State, ok}
use dbms.Realizer.{
  Names, ClauseType, Expression, column_reference, const_value, operation, check_reference,
  note_reference, check_expression, go_on, push_where, may_have_operation, resolve,
}

-- the check leaves the numbers of the tables alone
abbrev pub Keeps : Names → Option (State × Names) → Type 0
Keeps s none = Unit
Keeps s (some (state, s')) = s'.name2tuple_index ≡ s.name2tuple_index

Keeps-from :
    (s t : Names) (r : Option (State × Names))
    → t.name2tuple_index ≡ s.name2tuple_index
    → Keeps t r
    → Keeps s r
Keeps-from s t none e k = tt
Keeps-from s t (some (state, u)) e k = k ∙ e

Keeps-then :
    (s : Names) (r : Option (State × Names)) (next : Names → Option (State × Names))
    → Keeps s r
    → ((t : Names) → Keeps t (next t))
    → Keeps s (r >>= λ p. go_on p.0 next p.1)
Keeps-then s none next k h = tt
Keeps-then s (some (ok, t)) next k h = Keeps-from s t (next t) k (h t)
Keeps-then s (some (state, t)) next k h = k

Keeps-bind {ℓ} :
    {A : Type ℓ} (s : Names) (o : Option A) (f : A → Option (State × Names))
    → ((a : A) → Keeps s (f a))
    → Keeps s (o >>= f)
Keeps-bind s none f h = tt
Keeps-bind s (some a) f h = h a

Keeps-if :
    (s : Names) (b : Bool) (r : Option (State × Names))
    → Keeps s r
    → Keeps s (if b then r else none)
Keeps-if s true r k = k
Keeps-if s false r k = tt

note_reference-Keeps :
    (type : ClauseType) (ref : ℕ) (s : Names) → Keeps s (note_reference type ref s)
unfolding note_reference
note_reference-Keeps ClauseType.in_having ref s = tt
note_reference-Keeps ClauseType.in_select ref s = refl
note_reference-Keeps ClauseType.in_where ref s = refl
note_reference-Keeps ClauseType.in_join_on ref s = refl
note_reference-Keeps ClauseType.in_order_by ref s = refl
note_reference-Keeps ClauseType.in_group_by ref s = refl

check_reference-Keeps :
    (type : ClauseType) (ref : ℕ) (table column : Bytes) (s : Names)
    → Keeps s (check_reference type ref table column s)
unfolding check_reference
check_reference-Keeps type ref table column s = elim (Option-cases ((resolve table column s).0)) [
  | inl e ↦ rw (check_reference, e) refl
  | inr (owner, e) ↦
      rw (check_reference, e)
        (Keeps-bind s (find owner.0 s.name2tuple_index) _ λ i.
          Keeps-bind s (get_elem? owner.1.0.attributes owner.1.1) _ λ attr.
            note_reference-Keeps type ref (record s {
              name2slot =
                  insert ref
                    (record { tuple_index = i; slot_index = owner.1.1; data_type = attr.data_type })
                    s.name2slot;
            }))
]

push_where-same :
    (type : ClauseType) (e : Expression) (s : Names)
    → (push_where type e s).name2tuple_index ≡ s.name2tuple_index
push_where-same ClauseType.in_where e s = refl
push_where-same ClauseType.in_having e s = refl
push_where-same ClauseType.in_select e s = refl
push_where-same ClauseType.in_join_on e s = refl
push_where-same ClauseType.in_order_by e s = refl
push_where-same ClauseType.in_group_by e s = refl

pub check_expression-Keeps :
    (type : ClauseType) (e : Expression) (s : Names) → Keeps s (check_expression type e s)
unfolding check_expression
check_expression-Keeps type (column_reference ref table column) s =
    check_reference-Keeps type ref table column s
check_expression-Keeps type (const_value v) s = refl
check_expression-Keeps type (operation op left right) s = Keeps-if s (may_have_operation type) _ (
    Keeps-then s _ (λ t. some (ok, push_where type (operation op left right) t))
      (Keeps-then s (check_expression type left s) (check_expression type right)
        (check_expression-Keeps type left s) (check_expression-Keeps type right))
      (push_where-same type (operation op left right)))
