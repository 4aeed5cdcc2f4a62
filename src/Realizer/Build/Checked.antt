-- ===== src/Realizer/Build/Checked.antt =====
-- What the checks of a query leave in `name2slot_`, and what `BuildValueExpression` finds there.
use dbms.Prelude.{
  Every, Every-map, Every-append, ℕ, ◌≡◌, refl, Option, none, some, List, [], ◌∷◌, ◌++◌, Bool,
  Option-cases, subst, arith, inl, inr,
}
use dbms.Prelude.Maps.{StdMap, bytes_key, nat_key}
use dbms.Common.Memory.{◌>>=◌}
use dbms.Common.Define.{DataType, ok}
use dbms.Executor.Expression.{ValueExpr, slot_reference}
use dbms.Realizer.{
  Names, Check, ClauseType, integer, varchar, Expression, column_reference, const_value, operation,
  TableFactor, table_reference, join_clause, SelectStmt, SlotReference, check_expression,
  check_table_factor, check_all, check_order, check,
}
use dbms.Realizer.Slots.{Known, Gains, Stays, Known-Stays, Gains-then, check_expression-Gains}
use dbms.Realizer.Build.{build_value}

-- the conditions of the joins of a table factor
abbrev pub predicates : TableFactor → List Expression
predicates (table_reference table alias) = []
predicates (join_clause left right predicate) =
    predicates left ++ (predicates right ++ predicate ∷ [])

abbrev pub KnownFactor : StdMap ℕ SlotReference → TableFactor → Type 0
KnownFactor slots (table_reference table alias) = Unit
KnownFactor slots (join_clause left right predicate) =
    (KnownFactor slots left × KnownFactor slots right) × Known slots predicate

KnownFactor-Stays : (factor : TableFactor) → Stays λ s. KnownFactor s.name2slot factor
KnownFactor-Stays (table_reference table alias) s t g k = tt
KnownFactor-Stays (join_clause left right predicate) s t g ((l, r), p) = (
  (KnownFactor-Stays left s t g l, KnownFactor-Stays right s t g r),
  Known-Stays predicate s t g p,
)

check_table_factor-Gains :
    (factor : TableFactor) (s : Names)
    → Gains (λ t. KnownFactor t.name2slot factor) s (check_table_factor factor s)
unfolding check_table_factor
check_table_factor-Gains (table_reference table alias) s = elim (Option-cases (s.catalog table)) [
  | inl e ↦ rw (check_table_factor, e) (λ j w h. h, λ f. absurd (ground (arith, f)))
  | inr (relation, e) ↦ rw (check_table_factor, e) (λ j w h. h, λ f. tt)
]
check_table_factor-Gains (join_clause left right predicate) s =
    let p = λ (t : Names). KnownFactor t.name2slot left in
    let q = λ (t : Names). KnownFactor t.name2slot right in
    Gains-then (λ t. p t × q t) (λ t. Known t.name2slot predicate) s _
      (check_expression ClauseType.in_join_on predicate)
      (λ t u g k. (KnownFactor-Stays left t u g k.0, KnownFactor-Stays right t u g k.1))
      (Gains-then p q s (check_table_factor left s) (check_table_factor right)
        (KnownFactor-Stays left) (check_table_factor-Gains left s) (check_table_factor-Gains right))
      (check_expression-Gains ClauseType.in_join_on predicate)

Every-Stays {ℓ} :
    {A : Type ℓ} (P : Names → A → Type 0) (xs : List A)
    → ((a : A) → Stays λ s. P s a)
    → Stays λ s. Every (P s) xs
Every-Stays P [] stays s t g k = tt
Every-Stays P (a ∷ rest) stays s t g (p, k) = (stays a s t g p, Every-Stays P rest stays s t g k)

check_all-Gains {ℓ} :
    {A : Type ℓ} (f : A → Check) (P : Names → A → Type 0) (xs : List A) (s : Names)
    → ((a : A) → Stays λ t. P t a)
    → ((a : A) (t : Names) → Gains (λ u. P u a) t (f a t))
    → Gains (λ t. Every (P t) xs) s (check_all f xs s)
unfolding check_all
check_all-Gains f P [] s stays h = (λ j w k. k, λ e. tt)
check_all-Gains f P (a ∷ rest) s stays h =
    Gains-then (λ t. P t a) (λ t. Every (P t) rest) s (f a s) (check_all f rest) (stays a) (h a s)
      (λ t. check_all-Gains f P rest t stays h)

order-Gains :
    (o : Expression × Bool) (s : Names) → Gains (λ t. Known t.name2slot o.0) s (check_order o s)
unfolding check_order
order-Gains (e, is_desc) s =
    check_expression-Gains ClauseType.in_order_by e
      (record s { opt_order_by_is_desc = s.opt_order_by_is_desc ++ is_desc ∷ [] })

expressions-Gains :
    (type : ClauseType) (es : List Expression) (s : Names)
    → Gains (λ t. Every (Known t.name2slot) es) s (check_all (check_expression type) es s)
expressions-Gains type es s =
    check_all-Gains (check_expression type) (λ t. Known t.name2slot) es s Known-Stays
      (check_expression-Gains type)

-- all the expressions of a query
abbrev pub EveryOf : (Expression → Type 0) → (TableFactor → Type 0) → SelectStmt → Type 0
EveryOf P F q =
    (((Every F q.table_reference × Every P q.opt_where) × Every P q.opt_group)
      × Every P q.select_list)
    × Every (λ o. P o.0) q.opt_order

check-Gains :
    (q : SelectStmt) (s : Names)
    → Gains (λ t. EveryOf (Known t.name2slot) (KnownFactor t.name2slot) q) s (check q s)
unfolding check
check-Gains q s =
    let known = λ (es : List Expression) (t : Names). Every (Known t.name2slot) es in
    let stay : (es : List Expression) → Stays (known es) =
      λ es. Every-Stays (λ t. Known t.name2slot) es Known-Stays in
    let f = λ (t : Names). Every (KnownFactor t.name2slot) q.table_reference in
    let stay-f : Stays f =
      Every-Stays (λ t. KnownFactor t.name2slot) q.table_reference KnownFactor-Stays in
    let a = λ (t : Names). f t × known q.opt_where t in
    let stay-a : Stays a = λ t u g k. (stay-f t u g k.0, stay q.opt_where t u g k.1) in
    let b = λ (t : Names). a t × known q.opt_group t in
    let stay-b : Stays b = λ t u g k. (stay-a t u g k.0, stay q.opt_group t u g k.1) in
    let c = λ (t : Names). b t × known q.select_list t in
    let stay-c : Stays c = λ t u g k. (stay-b t u g k.0, stay q.select_list t u g k.1) in
    Gains-then c (λ t. Every (λ o. Known t.name2slot o.0) q.opt_order) s _
      (check_all check_order q.opt_order) stay-c
      (Gains-then b (known q.select_list) s _ _ stay-b
        (Gains-then a (known q.opt_group) s _ _ stay-a
          (Gains-then f (known q.opt_where) s (check_all check_table_factor q.table_reference s) _
            stay-f
            (check_all-Gains check_table_factor (λ t. KnownFactor t.name2slot) q.table_reference s
              KnownFactor-Stays check_table_factor-Gains)
            (expressions-Gains ClauseType.in_where q.opt_where))
          (expressions-Gains ClauseType.in_group_by q.opt_group))
        (expressions-Gains ClauseType.in_select q.select_list))
      (λ t.
        check_all-Gains check_order (λ u o. Known u.name2slot o.0) q.opt_order t
          (λ o. Known-Stays o.0) order-Gains)

pub check-Known :
    (q : SelectStmt) (s t : Names)
    → check q s ≡ some (ok, t)
    → EveryOf (Known t.name2slot) (KnownFactor t.name2slot) q
check-Known q s t h =
    (subst (Gains (λ u. EveryOf (Known u.name2slot) (KnownFactor u.name2slot) q) s) h
        (check-Gains q s)).1
      refl

-- `BuildValueExpression` returns, with a node or with the null pointer
abbrev pub Buildable : StdMap ℕ SlotReference → Expression → Type 0
Buildable slots e = (v : Option (ValueExpr × DataType)) × (build_value slots e ≡ some v)

Known-Buildable :
    (slots : StdMap ℕ SlotReference) (e : Expression) → Known slots e → Buildable slots e
unfolding build_value
Known-Buildable slots (column_reference ref table column) (slot, h) = (
  some (slot_reference slot.tuple_index slot.slot_index, slot.data_type),
  rw (build_value, h, ◌>>=◌) refl,
)
Known-Buildable slots (const_value (integer v)) k = (_, refl)
Known-Buildable slots (const_value (varchar v)) k = (_, refl)
Known-Buildable slots (operation op left right) (l, r) =
    let (v, f) = Known-Buildable slots left l in
    let (w, g) = Known-Buildable slots right r in
    (none, rw (build_value, f, ◌>>=◌) (rw (g, ◌>>=◌) refl))

predicates-Buildable :
    (slots : StdMap ℕ SlotReference) (factor : TableFactor)
    → KnownFactor slots factor
    → Every (Buildable slots) (predicates factor)
predicates-Buildable slots (table_reference table alias) k = tt
predicates-Buildable slots (join_clause left right predicate) ((l, r), p) =
    Every-append (Buildable slots) (predicates left) (predicates right ++ predicate ∷ [])
      (predicates-Buildable slots left l)
      (Every-append (Buildable slots) (predicates right) (predicate ∷ [])
        (predicates-Buildable slots right r) (Known-Buildable slots predicate p, tt))

-- Once a query has passed its check, `BuildValueExpression` finds the slot of every reference in
-- its joins' conditions, its `WHERE`, its groups, its select list and its order: it returns for
-- each of these expressions.
pub check-build_value :
    (q : SelectStmt) (s t : Names)
    → check q s ≡ some (ok, t)
    → EveryOf (Buildable t.name2slot) (λ f. Every (Buildable t.name2slot) (predicates f)) q
check-build_value q s t h =
    let k = check-Known q s t h in
    let m = t.name2slot in
    let every : (es : List Expression) → Every (Known m) es → Every (Buildable m) es =
      λ es. Every-map (Known m) (Buildable m) es (Known-Buildable m) in
    (
      (
        (
          (
            Every-map _ _ q.table_reference (predicates-Buildable m) k.0.0.0.0,
            every q.opt_where k.0.0.0.1,
          ),
          every q.opt_group k.0.0.1,
        ),
        every q.select_list k.0.1,
      ),
      Every-map (λ o. Known m o.0) (λ o. Buildable m o.0) q.opt_order (λ o. Known-Buildable m o.0)
          k.1,
    )
