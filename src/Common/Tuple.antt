-- ===== src/Common/Tuple.antt =====
-- src/include/common/tuple.h and slot.h: a row is a block that begins with an array of slots, each
-- the offset and the length of a value in the block. The members of `RawTuple` are reads and writes.
pub mod Written
pub mod Stored
use dbms.Prelude.{
  ℕ, ◌+◌, ◌*◌, ◌%◌, ◌^◌, ◌<◌, ◌≡◌, ap, Option, none, some, ◌++◌, arith, Bytes, take, drop, List,
}
use dbms.Common.Memory.{read, ◌>>=◌}
use dbms.Common.Memory.Integers.{encode, decode, decode-encode}

pub record Slot : Type 0 where
  pub offset : ℕ
  pub length : ℕ

abbrev pub sizeof_slot : ℕ
sizeof_slot = 4

-- `GetInteger`: the eight bytes at an offset, as a `uint64_t`
unfoldable pub get_integer : ℕ → Bytes → Option ℕ
get_integer offset block = do bytes ← read offset 8 block; some (decode bytes)

-- `GetValue`, and as many bytes as the caller takes from there
unfoldable pub get_value : ℕ → ℕ → Bytes → Option Bytes
get_value offset size block = read offset size block

-- `GetSlot`, read through: two `uint16_t`
unfoldable pub get_slot : ℕ → Bytes → Option Slot
get_slot nth block = do
  bytes ← read (sizeof_slot * nth) sizeof_slot block
  some (record { offset = decode (take 2 bytes); length = decode (drop 2 bytes) })

-- `SetValue`
abbrev pub set_value : ℕ → Bytes → ℕ × Bytes
set_value offset bytes = (offset, bytes)

-- `GetSlot`, assigned through: both fields are cut to sixteen bits
unfoldable pub slot_bytes : ℕ → ℕ → Bytes
slot_bytes offset length = encode 2 offset ++ encode 2 length

abbrev pub set_slot : ℕ → ℕ → ℕ → ℕ × Bytes
set_slot nth offset length = (sizeof_slot * nth, slot_bytes offset length)

pub get_slot-read :
    (nth o l : ℕ) (block : Bytes)
    → o < 2 ^ 16
    → l < 2 ^ 16
    → read (4 * nth) 4 block ≡ some (slot_bytes o l)
    → get_slot nth block ≡ some (record { offset = o; length = l })
unfolding get_slot slot_bytes encode decode
get_slot-read nth o l block ho hl h = ground arith

pub get_integer-read :
    (o n : ℕ) (block : Bytes)
    → read o 8 block ≡ some (encode 8 n)
    → n < 2 ^ 64
    → get_integer o block ≡ some n
unfolding get_integer
get_integer-read o n block h k = rw (h, ◌>>=◌) (ap some (decode-encode 8 n k))
