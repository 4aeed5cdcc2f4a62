-- ===== src/Common/Relation/Catalog.antt =====
-- A relation that goes through its catalog row.
use dbms.Prelude.{ℕ, ◌+◌, ◌^◌, ◌≤◌, ◌<◌, ◌≡◌, refl, some, arith, Bytes, length, take}
use dbms.Common.Memory.{Allocator, ◌>>=◌}
use dbms.Common.Memory.Integers.{encode}
use dbms.Common.Memory.Writes.{write_all, Within, write_all-some}
use dbms.Common.Tuple.{slot_bytes}
use dbms.Common.Tuple.Stored.{get_slot-take, get_integer-take, get_value-take}
use dbms.Common.Tuple.Written.{slot-written, integer-written, value-written}
use dbms.Common.Relation.{Relation, relation_writes, to_tuple, from_tuple}

pub record IsStorable (r : Relation) : Type 0 where
  pub relation_id_fits : r.relation_id < 2 ^ 32
  pub name_fits : length r.name ≤ 496

module _ (r : Relation) (block : Bytes) {tuple : Bytes} (v : IsStorable r)
    (h : write_all (relation_writes r) block ≡ some tuple) where
  from_tuple-written :
      (s : Relation)
      → from_tuple s tuple ≡ some (record s { relation_id = r.relation_id; name = r.name })
  unfolding from_tuple relation_writes slot_bytes encode
  from_tuple-written s =
      let slot = slot-written (relation_writes r) block h in
      let bound = v.name_fits in
      ground (
        arith,
        slot 1 0 8 8 refl (omega arith) (omega arith) (omega arith),
        slot 3 1 16 (length r.name) refl (omega arith) (omega arith) (omega arith),
        integer-written (relation_writes r) block h 0 8 r.relation_id refl (omega arith)
            (omega (arith, v.relation_id_fits)),
        value-written (relation_writes r) block h 2 16 r.name refl (omega arith),
      )

  -- the same from the bytes in use
  from_tuple-stored :
      (s : Relation)
      → from_tuple s (take (16 + length r.name) tuple)
        ≡ some (record s { relation_id = r.relation_id; name = r.name })
  unfolding from_tuple relation_writes slot_bytes encode
  from_tuple-stored s =
      let n = 16 + length r.name in
      let slot = slot-written (relation_writes r) block h in
      let bound = v.name_fits in
      ground (
        arith,
        get_slot-take 0 n tuple (omega arith),
        get_slot-take 1 n tuple (omega arith),
        get_integer-take 8 n tuple (omega arith),
        get_value-take 16 (length r.name) n tuple (omega arith),
        slot 1 0 8 8 refl (omega arith) (omega arith) (omega arith),
        slot 3 1 16 (length r.name) refl (omega arith) (omega arith) (omega arith),
        integer-written (relation_writes r) block h 0 8 r.relation_id refl (omega arith)
            (omega (arith, v.relation_id_fits)),
        value-written (relation_writes r) block h 2 16 r.name refl (omega arith),
      )

relation_writes-Within :
    (r : Relation) (n : ℕ) → IsStorable r → n ≡ 512 → Within n (relation_writes r)
unfolding relation_writes slot_bytes encode
relation_writes-Within r n v e = omega (arith, v.name_fits)

-- A relation whose identifier fits thirty-two bits and whose name has at most 496 bytes can be
-- written as a catalog row, of 16 bytes and its name, and reading the row back into any relation
-- restores the identifier and the name, and leaves the attributes there.
pub relation_round_trip :
    (m : Allocator) (r s : Relation)
    → IsStorable r
    → (tuple : Bytes) × (to_tuple m r ≡ some (tuple, 16 + length r.name))
      × (from_tuple s tuple ≡ some (record s { relation_id = r.relation_id; name = r.name }))
unfolding to_tuple
relation_round_trip m r s v =
    let l = m.length-malloc 512 in
    let (tuple, e, _) =
      write_all-some (relation_writes r) (m.malloc 512) (relation_writes-Within r _ v l) in
    (tuple, rw (e, ◌>>=◌) refl, from_tuple-written r (m.malloc 512) v e s)

-- The bytes of the row that are kept are read back too.
pub relation-stored :
    (m : Allocator) (r s : Relation)
    → IsStorable r
    → (tuple : Bytes) × (to_tuple m r ≡ some (tuple, 16 + length r.name))
      × (from_tuple s (take (16 + length r.name) tuple)
          ≡ some (record s { relation_id = r.relation_id; name = r.name }))
unfolding to_tuple
relation-stored m r s v =
    let l = m.length-malloc 512 in
    let (tuple, e, _) =
      write_all-some (relation_writes r) (m.malloc 512) (relation_writes-Within r _ v l) in
    (tuple, rw (e, ◌>>=◌) refl, from_tuple-stored r (m.malloc 512) v e s)
