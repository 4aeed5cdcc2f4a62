-- ===== src/Tests/Bitmaps.antt =====
-- A bitmap of two bytes.
use dbms.Prelude.{
  ◌<◌, [], ◌∷◌, get_elem?, ℕ, zero, suc, ◌≡◌, refl, arith, some, true, ◌==◌, if◌then◌else◌,
}
use dbms.Common.Bitmap.{Bitmap, new_bitmap, set_bit, get_bit}
use dbms.Common.Bitmap.Bits.{IsBitmap, set_bit-get_bit}

new_bitmap-IsBitmap : IsBitmap (new_bitmap 2)
unfolding new_bitmap
new_bitmap-IsBitmap = record {
  length_is = refl;
  bitcount_is = refl;
  bytes = λ i byte e. small i byte e;
}
  where
    small : (i byte : ℕ) → get_elem? (0 ∷ 0 ∷ []) i ≡ some byte → byte < 256
    small zero byte e = ground (arith, e)
    small (suc zero) byte e = ground (arith, e)
    small (suc (suc i)) byte e = absurd (ground (arith, e))

set_bit-get_bit_example :
    (m : Bitmap) × (set_bit 9 true (new_bitmap 2) ≡ some m)
    × IsBitmap m
    × ((other : ℕ)
        → get_bit other m ≡ (if 9 == other then some true else get_bit other (new_bitmap 2)))
unfolding new_bitmap
set_bit-get_bit_example = set_bit-get_bit 9 true (new_bitmap 2) new_bitmap-IsBitmap (omega arith)
