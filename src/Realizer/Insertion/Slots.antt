-- ===== src/Realizer/Insertion/Slots.antt =====
-- An insertion that has a value for each column.
use dbms.Prelude.{
  ℕ, suc, ◌+◌, ◌*◌, ◌%◌, ◌^◌, ◌≤◌, ◌≡◌, refl, ap, ◌∙◌, Option, none, some, List, [], ◌∷◌, arith,
  Bytes, length, take,
}
use dbms.Prelude.Maps.{StdMap, find, bytes_key}
use dbms.Common.Memory.{Allocator, read}
use dbms.Common.Memory.Writes.{patch, write-some, length-patch, take-append-before}
use dbms.Common.Attribute.{Attribute}
use dbms.Common.Relation.{Relation}
use dbms.Realizer.{Constant}
use dbms.Realizer.Insertion.{
  InsertStmt, get_integer_value, get_string_value, name2val, value_bytes, store, length_of,
  insert_columns, inserted_tuple,
}

-- Each attribute has a value, which fits the block of 8192 bytes at the offset.
abbrev pub AreGiven : ℕ → StdMap Bytes Constant → List Attribute → Type 0
AreGiven off values [] = Unit
AreGiven off values (a ∷ attributes) =
    ((c : Constant) × (find a.name values ≡ some c)
      × (off + length_of (value_bytes a.data_type (get_integer_value c) (get_string_value c))
          ≤ 8192))
    × AreGiven off values attributes

-- what is before the offset stays
abbrev Keeps : ℕ → Bytes → Bytes → Type 0
Keeps off block block' = (length block' ≡ length block) × (take off block' ≡ take off block)

store-Keeps :
    (v : Option Bytes) (off : ℕ) (block : Bytes)
    → off + length_of v ≤ length block
    → (block' : Bytes) × (store v off block ≡ some block') × Keeps off block block'
store-Keeps none off block h = (block, refl, (refl, refl))
store-Keeps (some v) off block h = (
  patch off v block,
  write-some off v block h,
  (length-patch off v block h, take-append-before off off block _ (omega arith) (omega arith)),
)

insert_columns-Keeps :
    (values : StdMap Bytes Constant) (i off : ℕ) (attributes : List Attribute) (block : Bytes)
    → length block ≡ 8192
    → AreGiven off values attributes
    → (block' : Bytes) × (insert_columns values i off attributes block ≡ some (block', off))
      × Keeps off block block'
unfolding insert_columns
insert_columns-Keeps values i off [] block l g = (block, refl, (refl, refl))
insert_columns-Keeps values i off (a ∷ attributes) block l ((c, f, fits), g) =
    let v = value_bytes a.data_type (get_integer_value c) (get_string_value c) in
    let (b, e, (lb, tb)) = store-Keeps v off block (omega (arith, l, fits)) in
    let (b', e', (lb', tb')) = insert_columns-Keeps values (suc i) off attributes b (lb ∙ l) g in
    (b', rw (insert_columns, f) (rw e e'), (lb' ∙ lb, tb' ∙ tb))

read-first : (n : ℕ) (block : Bytes) → n ≤ length block → read 0 n block ≡ some (take n block)
unfolding read
read-first n block h = ground arith

-- Where the statement has a value for each column, which fits the block, the row put into the table
-- is nothing but the slots, and these are what malloc left there: none of the values is stored.
pub inserted_tuple-slots :
    (m : Allocator) (r : Relation) (stmt : InsertStmt) (values : StdMap Bytes Constant)
    → name2val r stmt ≡ some values
    → 4 * length r.attributes ≤ 8192
    → AreGiven (4 * length r.attributes) values r.attributes
    → inserted_tuple m r stmt ≡ some (take (4 * length r.attributes) (m.malloc 8192))
unfolding inserted_tuple
inserted_tuple-slots m r stmt values n h g =
    let off = 4 * length r.attributes in
    let small : off % 2 ^ 32 ≡ off = omega arith in
    let (b, e, (lb, tb)) =
      insert_columns-Keeps values 0 off r.attributes (m.malloc 8192) (m.length-malloc 8192) g in
    rw n
      (rw small (rw e (read-first off b (omega (arith, h, lb, m.length-malloc 8192)) ∙ ap some tb)))
