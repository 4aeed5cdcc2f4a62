-- ===== src/Common/Tuple/Stored.antt =====
-- What is read of the bytes in use of a row, which are all that a database keeps of its block.
use dbms.Prelude.{
  ℕ, zero, suc, ◌+◌, ◌*◌, ◌≤◌, ◌≡◌, refl, ap, [], ◌∷◌, arith, Bytes, length, take, drop, leb,
  length-take,
}
use dbms.Common.Memory.{read}
use dbms.Common.Tuple.{get_integer, get_value, get_slot}

take-take : (size n : ℕ) (block : Bytes) → size ≤ n → take size (take n block) ≡ take size block
take-take zero n block h = refl
take-take (suc size) zero block h = absurd (omega arith)
take-take (suc size) (suc n) [] h = refl
take-take (suc size) (suc n) (b ∷ block) h = ap (◌∷◌ b) (take-take size n block (omega arith))

take-drop :
    (size offset n : ℕ) (block : Bytes)
    → offset + size ≤ n
    → take size (drop offset (take n block)) ≡ take size (drop offset block)
take-drop size zero n block h = take-take size n block (omega arith)
take-drop size (suc offset) zero block h = absurd (omega arith)
take-drop size (suc offset) (suc n) [] h = refl
take-drop size (suc offset) (suc n) (b ∷ block) h = take-drop size offset n block (omega arith)

leb-take :
    (size n : ℕ) (block : Bytes)
    → size ≤ n
    → leb size (length (take n block)) ≡ leb size (length block)
leb-take size n block h = ground (arith, length-take {0} n block)

read-take :
    (offset size n : ℕ) (block : Bytes)
    → offset + size ≤ n
    → read offset size (take n block) ≡ read offset size block
unfolding read
read-take offset size n block h =
    rw (leb-take (offset + size) n block h) (rw (take-drop size offset n block h) refl)

pub get_slot-take :
    (nth n : ℕ) (block : Bytes) → 4 * nth + 4 ≤ n → get_slot nth (take n block) ≡ get_slot nth block
unfolding get_slot
get_slot-take nth n block h = rw (read-take (4 * nth) 4 n block h) refl

pub get_integer-take :
    (offset n : ℕ) (block : Bytes)
    → offset + 8 ≤ n
    → get_integer offset (take n block) ≡ get_integer offset block
unfolding get_integer
get_integer-take offset n block h = rw (read-take offset 8 n block h) refl

pub get_value-take :
    (offset size n : ℕ) (block : Bytes)
    → offset + size ≤ n
    → get_value offset size (take n block) ≡ get_value offset size block
unfolding get_value
get_value-take offset size n block h = read-take offset size n block h
