-- ===== src/Common/Tuple/Written.antt =====
-- What the accessors of a row return after a sequence of writes.
use dbms.Prelude.{ℕ, suc, ◌*◌, ◌^◌, ◌<◌, ◌≡◌, some, List, Bytes, get_elem?, drop, length}
use dbms.Common.Memory.Integers.{encode}
use dbms.Common.Memory.Writes.{write_all, Apart, read-write_all}
use dbms.Common.Tuple.{
  get_integer, get_value, get_slot, set_slot, slot_bytes, get_slot-read, get_integer-read,
}

module _ (ws : List (ℕ × Bytes)) (block : Bytes) {tuple : Bytes}
    (h : write_all ws block ≡ some tuple) where
  pub slot-written :
      (i nth o l : ℕ)
      → get_elem? ws i ≡ some (set_slot nth o l)
      → Apart (4 * nth) 4 (drop (suc i) ws)
      → o < 2 ^ 16
      → l < 2 ^ 16
      → get_slot nth tuple ≡ some (record { offset = o; length = l })
  unfolding slot_bytes encode
  slot-written i nth o l e d ho hl =
      get_slot-read nth o l tuple ho hl (read-write_all ws i (4 * nth) (slot_bytes o l) block h e d)

  pub integer-written :
      (i o n : ℕ)
      → get_elem? ws i ≡ some (o, encode 8 n)
      → Apart o 8 (drop (suc i) ws)
      → n < 2 ^ 64
      → get_integer o tuple ≡ some n
  unfolding encode
  integer-written i o n e d k =
      get_integer-read o n tuple (read-write_all ws i o (encode 8 n) block h e d) k

  pub value-written :
      (i o : ℕ) (s : Bytes)
      → get_elem? ws i ≡ some (o, s)
      → Apart o (length s) (drop (suc i) ws)
      → get_value o (length s) tuple ≡ some s
  unfolding get_value
  value-written i o s e d = read-write_all ws i o s block h e d
