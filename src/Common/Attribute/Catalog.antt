-- ===== src/Common/Attribute/Catalog.antt =====
-- An attribute that goes through its catalog row: `ToTuple`, then `FromTuple`.
use dbms.Prelude.{
  ℕ, ◌+◌, ◌*◌, ◌%◌, ◌^◌, ◌≤◌, ◌<◌, ◌≡◌, refl, ap, some, ◌++◌, arith, Bytes, length, take,
}
use dbms.Common.Memory.{Allocator, read, ◌>>=◌}
use dbms.Common.Memory.Integers.{encode, decode}
use dbms.Common.Memory.Writes.{write_all, Within, read-write_all, write_all-some, read-append}
use dbms.Common.Tuple.{get_integer, get_value, get_slot, slot_bytes}
use dbms.Common.Tuple.Stored.{get_slot-take, get_integer-take, get_value-take}
use dbms.Common.Tuple.Written.{slot-written, integer-written, value-written}
use dbms.Common.Attribute.{Attribute, attribute_writes, to_tuple, from_tuple}

-- The numbers fit their thirty-two bits, and the row fits the block of 1024 bytes.
pub record IsStorable (a : Attribute) : Type 0 where
  pub id_fits : a.id < 2 ^ 32
  pub relation_id_fits : a.relation_id < 2 ^ 32
  pub max_length_fits : a.max_length < 2 ^ 32
  pub data_type_fits : a.data_type < 2 ^ 32
  pub attribute_index_fits : a.attribute_index < 2 ^ 32
  pub name_fits : length a.name ≤ 968

attribute_writes-Within :
    (a : Attribute) (n : ℕ) → IsStorable a → n ≡ 1024 → Within n (attribute_writes a)
unfolding attribute_writes slot_bytes encode
attribute_writes-Within a n v e = omega (arith, v.name_fits)

-- What the first eight bytes after the slots the code reckoned with hold in the end: the slots of
-- the fifth and the sixth value, which lie over the identifier.
abbrev pub overwritten_id : Attribute → ℕ
overwritten_id a = 40 + length a.name + 8 * 2 ^ 16

-- The attribute that a row is read back as, in the place of `b`.
abbrev pub reread : Attribute → Attribute → Attribute
reread a b = record b {
  id = overwritten_id a;
  relation_id = a.relation_id;
  name = a.name;
  data_type = a.data_type;
  max_length = a.max_length;
  attribute_index = a.attribute_index;
}

module _ (a : Attribute) (block : Bytes) {tuple : Bytes} (v : IsStorable a)
    (h : write_all (attribute_writes a) block ≡ some tuple) where
  abbrev offset3 : ℕ
  offset3 = 32 + length a.name

  id-reread : (n : ℕ) × (get_integer 16 tuple ≡ some n) × (n % 2 ^ 32 ≡ overwritten_id a)
  unfolding attribute_writes get_integer slot_bytes encode decode
  id-reread =
      let low = slot_bytes (offset3 + 8) 8 in
      let high = slot_bytes (offset3 + 8 + 8) 8 in
      let low_read : read 16 4 tuple ≡ some low =
        read-write_all (attribute_writes a) 9 16 low block h refl (omega arith) in
      let high_read : read 20 4 tuple ≡ some high =
        read-write_all (attribute_writes a) 11 20 high block h refl tt in
      (
        decode (low ++ high),
        rw (read-append 16 4 4 tuple low_read high_read, ◌>>=◌) refl,
        omega (arith, v.name_fits),
      )

  slots :
      (get_slot 0 tuple ≡ some (record { offset = 16; length = 8 }))
      × (get_slot 1 tuple ≡ some (record { offset = 24; length = 8 }))
      × (get_slot 2 tuple ≡ some (record { offset = 32; length = length a.name }))
      × (get_slot 3 tuple ≡ some (record { offset = offset3; length = 8 }))
      × (get_slot 4 tuple ≡ some (record { offset = offset3 + 8; length = 8 }))
      × (get_slot 5 tuple ≡ some (record { offset = offset3 + 8 + 8; length = 8 }))
  unfolding attribute_writes slot_bytes encode
  slots =
      let written = slot-written (attribute_writes a) block h in
      let bound = v.name_fits in
      (
        written 1 0 16 8 refl (omega arith) (omega arith) (omega arith),
        written 3 1 24 8 refl (omega arith) (omega arith) (omega arith),
        written 5 2 32 (length a.name) refl (omega arith) (omega arith) (omega arith),
        written 7 3 offset3 8 refl (omega arith) (omega arith) (omega arith),
        written 9 4 (offset3 + 8) 8 refl (omega arith) (omega arith) (omega arith),
        written 11 5 (offset3 + 8 + 8) 8 refl (omega arith) (omega arith) (omega arith),
      )

  values :
      (get_integer 24 tuple ≡ some a.relation_id)
      × (get_value 32 (length a.name) tuple ≡ some a.name)
      × (get_integer offset3 tuple ≡ some a.data_type)
      × (get_integer (offset3 + 8) tuple ≡ some a.max_length)
      × (get_integer (offset3 + 8 + 8) tuple ≡ some a.attribute_index)
  unfolding attribute_writes slot_bytes encode
  values =
      let written = integer-written (attribute_writes a) block h in
      (
        written 2 24 a.relation_id refl (omega arith) (omega (arith, v.relation_id_fits)),
        value-written (attribute_writes a) block h 4 32 a.name refl (omega arith),
        written 6 offset3 a.data_type refl (omega arith) (omega (arith, v.data_type_fits)),
        written 8 (offset3 + 8) a.max_length refl (omega arith) (omega (arith, v.max_length_fits)),
        written 10 (offset3 + 8 + 8) a.attribute_index refl (omega arith)
            (omega (arith, v.attribute_index_fits)),
      )

  from_tuple-written : (b : Attribute) → from_tuple b tuple ≡ some (reread a b)
  unfolding from_tuple
  from_tuple-written b = ground (arith, id-reread, slots, values)

  -- the same from the bytes in use
  from_tuple-stored :
      (b : Attribute) (n : ℕ)
      → n ≡ 56 + length a.name
      → from_tuple b (take n tuple) ≡ some (reread a b)
  unfolding from_tuple
  from_tuple-stored b n e = ground (
    arith,
    id-reread,
    slots,
    values,
    get_slot-take 0 n tuple (omega (arith, e)),
    get_slot-take 1 n tuple (omega (arith, e)),
    get_slot-take 2 n tuple (omega (arith, e)),
    get_slot-take 3 n tuple (omega (arith, e)),
    get_slot-take 4 n tuple (omega (arith, e)),
    get_slot-take 5 n tuple (omega (arith, e)),
    get_integer-take 16 n tuple (omega (arith, e)),
    get_integer-take 24 n tuple (omega (arith, e)),
    get_value-take 32 (length a.name) n tuple (omega (arith, e)),
    get_integer-take offset3 n tuple (omega (arith, e)),
    get_integer-take (offset3 + 8) n tuple (omega (arith, e)),
    get_integer-take (offset3 + 8 + 8) n tuple (omega (arith, e)),
  )

-- An attribute whose numbers fit their thirty-two bits and whose name has at most 968 bytes can be
-- written as a catalog row, of 56 bytes and its name. Reading the row back into any attribute `b`
-- restores its relation, name, type, length and index, and leaves the other fields of `b`; but the
-- identifier read is 40 + |name| + 8 * 65536 whatever the one written was, since the slots of the
-- last two values lie over it.
pub from_tuple-to_tuple :
    (m : Allocator) (a b : Attribute)
    → IsStorable a
    → (tuple : Bytes) × (to_tuple m a ≡ some (tuple, 56 + length a.name))
      × (from_tuple b tuple ≡ some (reread a b))
unfolding to_tuple
from_tuple-to_tuple m a b v =
    let l = m.length-malloc 1024 in
    let (tuple, e, _) =
      write_all-some (attribute_writes a) (m.malloc 1024) (attribute_writes-Within a _ v l) in
    (
      tuple,
      rw (e, ◌>>=◌) (ap (λ n. some (tuple, n)) (omega arith)),
      from_tuple-written a (m.malloc 1024) v e b,
    )

-- The bytes of the row that are kept are read back as the same attribute.
pub attribute-stored :
    (m : Allocator) (a b : Attribute)
    → IsStorable a
    → (tuple : Bytes) × (to_tuple m a ≡ some (tuple, 56 + length a.name))
      × (from_tuple b (take (56 + length a.name) tuple) ≡ some (reread a b))
unfolding to_tuple
attribute-stored m a b v =
    let l = m.length-malloc 1024 in
    let (tuple, e, _) =
      write_all-some (attribute_writes a) (m.malloc 1024) (attribute_writes-Within a _ v l) in
    (
      tuple,
      rw (e, ◌>>=◌) (ap (λ n. some (tuple, n)) (omega arith)),
      from_tuple-stored a (m.malloc 1024) v e b (56 + length a.name) refl,
    )
