-- ===== src/Executor/Expression/Order.antt =====
-- The comparisons are orders.
use dbms.Prelude.{
  ℕ, ◌+◌, ◌-◌, ◌^◌, ◌<◌, ◌≡◌, ◌⊎◌, Bool, true, false, Bytes, [], ◌∷◌, arith, ltb, leb, ◌==◌,
  bytes_eq, bytes_lt, if◌then◌else◌, ◌||◌, refl, sym, ap, ◌∙◌, some, Option-cases, inl, inr,
}
use dbms.Common.Define.{OperatorType, equal, less, greater, less_or_equal, greater_or_equal}
use dbms.Common.Memory.{◌>>=◌}
use dbms.Common.Row.{TupleRow}
use dbms.Executor.Expression.{
  ValueExpr, get_value, word_of, integer_compare_value, compare_integers, compare_strings, int64_lt,
  switch_compare,
}

-- The number that a bit pattern stands for, moved up by 2 ^ 63.
abbrev pub biased : ℕ → ℕ
biased a = if ltb a (2 ^ 63) then a + 2 ^ 63 else a - 2 ^ 63

int64_lt-biased : (x y : ℕ) → x < 2 ^ 64 → y < 2 ^ 64 → int64_lt x y ≡ ltb (biased x) (biased y)
unfolding int64_lt
int64_lt-biased x y hx hy = ground arith

compare_integers-biased :
    (x y : ℕ)
    → x < 2 ^ 64
    → y < 2 ^ 64
    → (compare_integers equal x y ≡ (biased x == biased y))
      × (compare_integers less x y ≡ ltb (biased x) (biased y))
      × (compare_integers greater x y ≡ ltb (biased y) (biased x))
      × (compare_integers less_or_equal x y ≡ leb (biased x) (biased y))
      × (compare_integers greater_or_equal x y ≡ leb (biased y) (biased x))
unfolding compare_integers switch_compare
compare_integers-biased x y hx hy =
    let lt = int64_lt-biased x y hx hy in
    let gt = int64_lt-biased y x hy hx in
    (ground arith, lt, gt, ground (arith, gt), ground (arith, lt))

-- the value of a comparison of two words
integer_compare_value-words :
    (op : OperatorType) (left right : ValueExpr) (row1 row2 : TupleRow) (x y : ℕ)
    → (get_value left row1 >>= word_of) ≡ some x
    → (get_value right row2 >>= word_of) ≡ some y
    → integer_compare_value op left right row1 row2 ≡ some (compare_integers op x y)
unfolding integer_compare_value
integer_compare_value-words op left right row1 row2 x y h k =
    elim (Option-cases (get_value left row1)) [
      | inl e ↦ absurd (ground (arith, e, h))
      | inr (v, e) ↦ elim (Option-cases (get_value right row2)) [
        | inl f ↦ absurd (ground (arith, f, k))
        | inr (w, f) ↦
            let h' : word_of v ≡ some x = sym (rw (e, ◌>>=◌) refl) ∙ h in
            let k' : word_of w ≡ some y = sym (rw (f, ◌>>=◌) refl) ∙ k in
            rw (e, ◌>>=◌) (rw (h', ◌>>=◌) (rw (f, ◌>>=◌) (rw (k', ◌>>=◌) refl)))
      ]
    ]

-- Where the operands of an `IntegerCompare` have words of sixty-four bits, `GetValue` returns for
-- =, <, >, <= and >= whether the signed numbers that these words stand for are equal, or compare
-- so.
pub integer_compare_value-biased :
    (left right : ValueExpr) (row1 row2 : TupleRow) (x y : ℕ)
    → (get_value left row1 >>= word_of) ≡ some x
    → (get_value right row2 >>= word_of) ≡ some y
    → x < 2 ^ 64
    → y < 2 ^ 64
    → (integer_compare_value equal left right row1 row2 ≡ some (biased x == biased y))
      × (integer_compare_value less left right row1 row2 ≡ some (ltb (biased x) (biased y)))
      × (integer_compare_value greater left right row1 row2 ≡ some (ltb (biased y) (biased x)))
      × (integer_compare_value less_or_equal left right row1 row2
          ≡ some (leb (biased x) (biased y)))
      × (integer_compare_value greater_or_equal left right row1 row2
          ≡ some (leb (biased y) (biased x)))
integer_compare_value-biased left right row1 row2 x y h k hx hy =
    let (eq, lt, gt, le, ge) = compare_integers-biased x y hx hy in
    let value =
      λ (op : OperatorType). integer_compare_value-words op left right row1 row2 x y h k in
    (
      value equal ∙ ap some eq,
      value less ∙ ap some lt,
      value greater ∙ ap some gt,
      value less_or_equal ∙ ap some le,
      value greater_or_equal ∙ ap some ge,
    )

-- exactly one of three
abbrev pub ExactlyOne : Bool → Bool → Bool → Type 0
ExactlyOne a b c =
    ((a ≡ true) × (b ≡ false) × (c ≡ false))
    ⊎ ((a ≡ false) × (b ≡ true) × (c ≡ false))
    ⊎ ((a ≡ false) × (b ≡ false) × (c ≡ true))

bytes_trichotomy : (x y : Bytes) → ExactlyOne (bytes_lt x y) (bytes_eq x y) (bytes_lt y x)
unfolding bytes_lt bytes_eq
bytes_trichotomy [] [] = ground arith
bytes_trichotomy [] (b ∷ y) = ground arith
bytes_trichotomy (a ∷ x) [] = ground arith
bytes_trichotomy (a ∷ x) (b ∷ y) = ground (arith, bytes_trichotomy x y)

bytes_lt_trans : (x y z : Bytes) → bytes_lt x y ≡ true → bytes_lt y z ≡ true → bytes_lt x z ≡ true
unfolding bytes_lt
bytes_lt_trans [] [] [] h k = ground arith
bytes_lt_trans [] (b ∷ y) [] h k = ground arith
bytes_lt_trans [] y (c ∷ z) h k = ground arith
bytes_lt_trans (a ∷ x) [] z h k = ground arith
bytes_lt_trans (a ∷ x) (b ∷ y) [] h k = ground arith
bytes_lt_trans (a ∷ x) (b ∷ y) (c ∷ z) h k = ground (arith, bytes_lt_trans x y z)

-- Of two strings the first is less than, equal to or greater than the second, and exactly one of
-- these; less or equal is the first or the second of them, and greater or equal the third or the
-- second.
pub compare_strings-ExactlyOne :
    (x y : Bytes)
    → ExactlyOne
        (compare_strings less x y)
        (compare_strings equal x y)
        (compare_strings greater x y)
      × (compare_strings less_or_equal x y ≡ compare_strings less x y || compare_strings equal x y)
      × (compare_strings greater_or_equal x y
          ≡ compare_strings greater x y || compare_strings equal x y)
unfolding compare_strings switch_compare
compare_strings-ExactlyOne x y = (
  bytes_trichotomy x y,
  ground (arith, bytes_trichotomy x y),
  ground (arith, bytes_trichotomy x y),
)

-- Less is transitive on strings.
pub compare_strings_trans :
    (x y z : Bytes)
    → compare_strings less x y ≡ true
    → compare_strings less y z ≡ true
    → compare_strings less x z ≡ true
unfolding compare_strings switch_compare
compare_strings_trans x y z h k = bytes_lt_trans x y z h k
