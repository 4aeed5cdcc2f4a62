-- ===== src/Realizer/Build/Typing.antt =====
-- The conditions that `BuildBooleanExpression` makes compare values of one type.
use dbms.Prelude.{
  ℕ, ◌≡◌, refl, sym, subst, ◌∙◌, Option, none, some, Bool, true, false, ◌==◌, ==_iff, if◌then◌else◌,
  Option-cases, inl, inr,
}
use dbms.Prelude.Maps.{StdMap, find, nat_key}
use dbms.Common.Memory.{◌>>=◌}
use dbms.Common.Define.{
  OperatorType, DataType, is_compare_operator, is_logic_operator, dt_integer, dt_float, dt_varchar,
}
use dbms.Executor.Expression.{
  ValueExpr, BooleanExpr, slot_reference, integer_const_value, varchar_const_value,
  float_const_value, varchar_compare, integer_compare, float_compare, logic_expr,
}
use dbms.Realizer.{
  integer, varchar, Expression, column_reference, const_value, operation, SlotReference,
}
use dbms.Realizer.Build.{build_value, build_compare, both, build_boolean}

-- A value is of this type: a slot by what the checks have noted of it.
abbrev pub HasType : StdMap ℕ SlotReference → DataType → ValueExpr → Type 0
HasType slots t (slot_reference i j) =
    (ref : ℕ) × (slot : SlotReference) × (find ref slots ≡ some slot)
    × (slot.tuple_index ≡ i)
    × (slot.slot_index ≡ j)
    × (slot.data_type ≡ t)
HasType slots t (integer_const_value n) = dt_integer ≡ t
HasType slots t (varchar_const_value s) = dt_varchar ≡ t
HasType slots t (float_const_value n) = dt_float ≡ t

abbrev Operands : StdMap ℕ SlotReference → DataType → OperatorType → ValueExpr → ValueExpr → Type 0
Operands slots t op left right =
    HasType slots t left × HasType slots t right × (is_compare_operator op ≡ true)

-- Each comparison of a condition is by a comparison operator and of two values of its type, and
-- conditions are joined by logic operators.
abbrev pub WellTyped : StdMap ℕ SlotReference → BooleanExpr → Type 0
WellTyped slots (integer_compare op left right) = Operands slots dt_integer op left right
WellTyped slots (float_compare op left right) = Operands slots dt_float op left right
WellTyped slots (varchar_compare op left right) = Operands slots dt_varchar op left right
WellTyped slots (logic_expr op left right) =
    WellTyped slots left × WellTyped slots right × (is_logic_operator op ≡ true)

-- a value that was built has the type it is given
abbrev Typed : StdMap ℕ SlotReference → Option (Option (ValueExpr × DataType)) → Type 0
Typed slots none = Unit
Typed slots (some none) = Unit
Typed slots (some (some (v, t))) = HasType slots t v

-- a condition that was built is well typed
abbrev Sound : StdMap ℕ SlotReference → Option (Option BooleanExpr) → Type 0
Sound slots none = Unit
Sound slots (some none) = Unit
Sound slots (some (some p)) = WellTyped slots p

build_value-Typed :
    (slots : StdMap ℕ SlotReference) (e : Expression) → Typed slots (build_value slots e)
unfolding build_value
build_value-Typed slots (column_reference ref table column) = elim (Option-cases (find ref slots)) [
  | inl n ↦ rw (build_value, n, ◌>>=◌) tt
  | inr (slot, n) ↦ rw (build_value, n, ◌>>=◌) (ref, slot, n, refl, refl, refl)
]
build_value-Typed slots (const_value (integer v)) = refl
build_value-Typed slots (const_value (varchar v)) = refl
build_value-Typed slots (operation op left right) = elim (Option-cases (build_value slots left)) [
  | inl n ↦ rw (build_value, n, ◌>>=◌) tt
  | inr (l, n) ↦ elim (Option-cases (build_value slots right)) [
    | inl k ↦ rw (build_value, n, ◌>>=◌) (rw (k, ◌>>=◌) tt)
    | inr (r, k) ↦ rw (build_value, n, ◌>>=◌) (rw (k, ◌>>=◌) tt)
  ]
]

Sound-if :
    (slots : StdMap ℕ SlotReference) (b : Bool) (x y : Option (Option BooleanExpr))
    → (b ≡ true → Sound slots x)
    → Sound slots y
    → Sound slots (if b then x else y)
Sound-if slots true x y f k = f refl
Sound-if slots false x y f k = k

Sound-some_if :
    (slots : StdMap ℕ SlotReference) (b : Bool) (x y : Option BooleanExpr)
    → (b ≡ true → Sound slots (some x))
    → Sound slots (some y)
    → Sound slots (some (if b then x else y))
Sound-some_if slots true x y f k = f refl
Sound-some_if slots false x y f k = k

build_compare-Sound :
    (slots : StdMap ℕ SlotReference) (op : OperatorType) (l r : Option (ValueExpr × DataType))
    → is_compare_operator op ≡ true
    → Typed slots (some l)
    → Typed slots (some r)
    → Sound slots (build_compare op l r)
unfolding build_compare
build_compare-Sound slots op none r c f g = tt
build_compare-Sound slots op (some left) none c f g = tt
build_compare-Sound slots op (some (left, t)) (some (right, u)) c f g =
    let to : (k : DataType) → (t == u) ≡ true → (t == k) ≡ true → Operands slots k op left right =
      λ k e q.
        let tk = (==_iff t k).0 q in
        let uk : u ≡ k = sym ((==_iff t u).0 e) ∙ tk in
        (subst (λ x. HasType slots x left) tk f, subst (λ x. HasType slots x right) uk g, c) in
    Sound-if slots (t == u) _ none
      (λ e. Sound-some_if slots (t == dt_integer) _ _ (to dt_integer e) (
        Sound-some_if slots (t == dt_float) _ _ (to dt_float e)
          (Sound-some_if slots (t == dt_varchar) _ _ (to dt_varchar e) tt)))
      tt

both-Sound :
    (slots : StdMap ℕ SlotReference) (op : OperatorType) (l r : Option BooleanExpr)
    → is_logic_operator op ≡ true
    → Sound slots (some l)
    → Sound slots (some r)
    → Sound slots (some (both op l r))
both-Sound slots op none r c f g = tt
both-Sound slots op (some left) none c f g = tt
both-Sound slots op (some left) (some right) c f g = (f, g, c)

Sound-bind {ℓ} :
    {A : Type ℓ} (slots : StdMap ℕ SlotReference) (o : Option A)
    (f : A → Option (Option BooleanExpr))
    → ((a : A) → o ≡ some a → Sound slots (f a))
    → Sound slots (o >>= f)
Sound-bind slots none f h = tt
Sound-bind slots (some a) f h = h a refl

build_boolean-Sound :
    (slots : StdMap ℕ SlotReference) (e : Expression) → Sound slots (build_boolean slots e)
unfolding build_boolean
build_boolean-Sound slots (column_reference ref table column) = tt
build_boolean-Sound slots (const_value v) = tt
build_boolean-Sound slots (operation op left right) =
    Sound-if slots (is_compare_operator op) _ _
      (λ c. Sound-bind slots (build_value slots left) _ λ l n.
        Sound-bind slots (build_value slots right) _ λ r k.
          build_compare-Sound slots op l r c (subst (Typed slots) n (build_value-Typed slots left))
            (subst (Typed slots) k (build_value-Typed slots right)))
      (Sound-if slots (is_logic_operator op) _ (some none)
        (λ c. Sound-bind slots (build_boolean slots left) _ λ l n.
          Sound-bind slots (build_boolean slots right) _ λ r k.
            both-Sound slots op l r c (subst (Sound slots) n (build_boolean-Sound slots left))
              (subst (Sound slots) k (build_boolean-Sound slots right)))
        tt)

-- A condition that `BuildBooleanExpression` returns compares only values of one type, each slot by
-- the type that the checks have noted for it, with a comparison operator and by the node of that
-- type, and it joins conditions only by logic operators.
pub build_boolean-WellTyped :
    (slots : StdMap ℕ SlotReference) (e : Expression) (p : BooleanExpr)
    → build_boolean slots e ≡ some (some p)
    → WellTyped slots p
build_boolean-WellTyped slots e p h = subst (Sound slots) h (build_boolean-Sound slots e)
