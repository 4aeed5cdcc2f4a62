-- ===== src/Common/Bitmap.antt =====
-- src/include/common/bitmap.h and src/common/bitmap.cpp: a bitmap in a block of memory. A byte outside
-- the block is undefined behaviour, `none`.
pub mod Bits
use dbms.Prelude.{
  ℕ, zero, suc, ◌+◌, ◌-◌, ◌*◌, ◌/◌, ◌%◌, ◌^◌, Option, none, some, Bool, true, false, not, Bytes,
  set, get_elem?, replicate, if◌then◌else◌, ◌==◌, ltb, leb,
}
use Prim.Native.Nat.{bit_and, bit_or}
use dbms.Common.Memory.{read, ◌>>=◌}
use dbms.Common.Memory.Integers.{decode}

pub record Bitmap : Type 0 where
  pub length : ℕ
  pub bitcount : ℕ
  pub bits : Bytes

-- the constructor
unfoldable pub new_bitmap : ℕ → Bitmap
new_bitmap length = record {
  length = length;
  bitcount = length * 8 % 2 ^ 32;
  bits = replicate length 0;
}

-- the byte that `SetBit` writes; the complement of the mask is cut to the byte
unfoldable pub byte_with : Bool → ℕ → ℕ → ℕ
byte_with bit k byte = if bit then bit_or byte (2 ^ k) else bit_and byte (255 - 2 ^ k)

-- `SetBit`, which does not compare the offset with the count
unfoldable pub set_bit : ℕ → Bool → Bitmap → Option Bitmap
unfolding byte_with
set_bit offset bit m = do
  byte ← get_elem? m.bits (offset / 8)
  some (record m { bits = set m.bits (offset / 8) (byte_with bit (offset % 8) byte) })

unfoldable pub has_bit : ℕ → ℕ → Bool
has_bit byte k = not (bit_and byte (2 ^ k) == 0)

-- `GetBit`
unfoldable pub get_bit : ℕ → Bitmap → Option Bool
unfolding has_bit
get_bit offset m =
    if ltb offset m.bitcount
    then (get_elem? m.bits (offset / 8) >>= λ byte. some (has_bit byte (offset % 8)))
    else none

-- one `step` of `msb32_idx`
unfoldable pub step : ℕ → ℕ × ℕ → ℕ × ℕ
step x (b, n) = if leb (2 ^ x) n then (b + x, n / 2 ^ x) else (b, n)

-- `msb32_idx`; -1 is its bit pattern.
unfoldable pub msb32_idx : ℕ → ℕ
unfolding step
msb32_idx n = if n == 0 then 2 ^ 32 - 1 else (step 1 (step 2 (step 4 (step 8 (step 16 (0, n)))))).0

-- `lsb32_idx`
unfoldable pub lsb32_idx : ℕ → ℕ
unfolding msb32_idx
lsb32_idx n = msb32_idx (bit_and n ((2 ^ 32 - n) % 2 ^ 32))

-- the loop of `FindFirstZeroBit`, with the rounds that are left: one for each word of four bytes,
-- but only while eight times its number is below the length
unfoldable pub find_from : ℕ → ℕ → Bitmap → Option ℕ
unfolding lsb32_idx
find_from zero i m = some m.bitcount
find_from (suc rounds) i m =
    let rest = find_from rounds (suc i) m in
    do
      word ← read (4 * i) 4 m.bits
      let v = decode word
      if v == 2 ^ 32 - 1 then rest else some ((i * 32 + lsb32_idx (2 ^ 32 - 1 - v)) % 2 ^ 32)

-- `FindFirstZeroBit`
unfoldable pub find_first_zero_bit : Bitmap → Option ℕ
unfolding find_from
find_first_zero_bit m = find_from ((m.length + 7) / 8) 0 m
