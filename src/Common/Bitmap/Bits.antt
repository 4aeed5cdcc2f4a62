-- ===== src/Common/Bitmap/Bits.antt =====
-- What `SetBit` does to the bits that `GetBit` returns.
use dbms.Prelude.{
  ℕ, zero, suc, ◌+◌, ◌*◌, ◌/◌, ◌%◌, ◌<◌, ◌≡◌, refl, sym, ap, ◌∙◌, none, some, Bool, true, false,
  not, ◌&&◌, List, [], ◌∷◌, length, set, get_elem?, arith, if◌then◌else◌, ◌==◌, ==_iff, ltb, lt→ltb,
  ltb→lt, length-set, get_elem?-set_self, get_elem?-set_ne, get_elem?-lt, Bool-cases, subst, inl,
  inr,
}
use dbms.Common.Memory.{◌>>=◌}
use dbms.Common.Bitmap.{Bitmap, byte_with, set_bit, has_bit, get_bit}

holds_below : ℕ → (ℕ → Bool) → Bool
holds_below zero p = true
holds_below (suc n) p = p n && holds_below n p

holds_below_at : (n : ℕ) (p : ℕ → Bool) (x : ℕ) → holds_below n p ≡ true → x < n → p x ≡ true
unfolding holds_below
holds_below_at zero p x h lt = absurd (omega arith)
holds_below_at (suc n) p x h lt = ground (arith, holds_below_at n p x)

abbrev same : Bool → Bool → Bool
same true b = b
same false b = not b

-- one byte, the bit that is set, and the bit that is read, in a number
keeps_bits : Bool → ℕ → Bool
unfolding byte_with has_bit
keeps_bits bit n =
    let byte = n % 256 in
    let k = n / 256 % 8 in
    let j = n / 2048 in
    ltb (byte_with bit k byte) 256
    && same (has_bit (byte_with bit k byte) j) (if k == j then bit else has_bit byte j)

table : (bit : Bool) → holds_below 16384 (keeps_bits bit) ≡ true
unfolding holds_below keeps_bits byte_with has_bit
table true = refl
table false = refl

and_left : (a b : Bool) → (a && b) ≡ true → a ≡ true
and_left true b h = refl
and_left false b h = h

and_right : (a b : Bool) → (a && b) ≡ true → b ≡ true
and_right true b h = h
and_right false b h = absurd (ground (arith, h))

same_eq : (a b : Bool) → same a b ≡ true → a ≡ b
same_eq true b h = sym h
same_eq false true h = h
same_eq false false h = refl

keeps_bits-packed :
    (bit : Bool) (byte k j : ℕ)
    → byte < 256
    → k < 8
    → j < 8
    → (ltb (byte_with bit k byte) 256
        && same (has_bit (byte_with bit k byte) j) (if k == j then bit else has_bit byte j))
      ≡ true
unfolding keeps_bits
keeps_bits-packed bit byte k j hb hk hj =
    let n = byte + 256 * k + 2048 * j in
    let e1 : n % 256 ≡ byte = omega arith in
    let e2 : n / 256 % 8 ≡ k = omega arith in
    let e3 : n / 2048 ≡ j = omega arith in
    let holds : keeps_bits bit n ≡ true =
      holds_below_at 16384 (keeps_bits bit) n (table bit) (omega arith) in
    rw (e1, e2, e3) at holds

-- a bit of the byte that `SetBit` writes
has_bit-byte_with :
    (bit : Bool) (byte k j : ℕ)
    → byte < 256
    → k < 8
    → j < 8
    → has_bit (byte_with bit k byte) j ≡ (if k == j then bit else has_bit byte j)
has_bit-byte_with bit byte k j hb hk hj =
    same_eq _ _
      (and_right (ltb (byte_with bit k byte) 256) _ (keeps_bits-packed bit byte k j hb hk hj))

byte_with-lt : (bit : Bool) (byte k : ℕ) → byte < 256 → k < 8 → byte_with bit k byte < 256
byte_with-lt bit byte k hb hk =
    ltb→lt _ _ (and_left _ _ (keeps_bits-packed bit byte k 0 hb hk (omega arith)))

-- The block has the bytes that the length says, and the count is eight times it.
pub record IsBitmap (m : Bitmap) : Type 0 where
  pub length_is : length m.bits ≡ m.length
  pub bitcount_is : m.bitcount ≡ 8 * m.length
  pub bytes : (i byte : ℕ) → get_elem? m.bits i ≡ some byte → byte < 256

get_elem?-length : (xs : List ℕ) (i x : ℕ) → get_elem? xs i ≡ some x → i < length xs
get_elem?-length [] i x h = absurd (ground (arith, h))
get_elem?-length (y ∷ xs) zero x h = omega arith
get_elem?-length (y ∷ xs) (suc i) x h = omega (arith, get_elem?-length xs i x h)

-- the bitmap with one byte replaced
abbrev with_byte : ℕ → ℕ → Bitmap → Bitmap
with_byte i b m = record m { bits = set m.bits i b }

with_byte-IsBitmap :
    (i b old : ℕ) (m : Bitmap)
    → IsBitmap m
    → get_elem? m.bits i ≡ some old
    → b < 256
    → IsBitmap (with_byte i b m)
with_byte-IsBitmap i b old m v g h = record {
  length_is = length-set m.bits i b ∙ v.length_is;
  bitcount_is = v.bitcount_is;
  bytes = λ j byte e. elim (Bool-cases (i == j)) [
    | inl q ↦
        let there : get_elem? (set m.bits i b) i ≡ some b =
          get_elem?-set_self m.bits i b (get_elem?-length m.bits i old g) in
        ground
          (arith, subst (λ k. get_elem? (set m.bits i b) k ≡ some b) ((==_iff i j).0 q) there, e, h)
    | inr q ↦
        v.bytes j byte (sym (get_elem?-set_ne m.bits i j b λ p. absurd (ground (arith, q, p))) ∙ e)
  ];
}

bool_ext : (a b : Bool) → (a ≡ true → b ≡ true) → (b ≡ true → a ≡ true) → a ≡ b
bool_ext true b f g = sym (f refl)
bool_ext false true f g = g refl
bool_ext false false f g = refl

same_offset : (a b : ℕ) → a / 8 ≡ b / 8 → (a % 8 == b % 8) ≡ (a == b)
same_offset a b e =
    bool_ext (a % 8 == b % 8) (a == b)
      (λ h. (==_iff a b).1 (let k = (==_iff (a % 8) (b % 8)).0 h in omega (arith, e, k)))
      (λ h. (==_iff (a % 8) (b % 8)).1 (ap (λ n. n % 8) ((==_iff a b).0 h)))

other_byte : (a b : ℕ) → (a / 8 == b / 8) ≡ false → (a == b) ≡ false
other_byte a b q = elim (Bool-cases (a == b)) [
  | inl e ↦
      absurd (ground (arith, q, (==_iff (a / 8) (b / 8)).1 (ap (λ n. n / 8) ((==_iff a b).0 e))))
  | inr e ↦ e
]

some_if : (c x y : Bool) → some (if c then x else y) ≡ (if c then some x else some y)
some_if true x y = refl
some_if false x y = refl

get_bit-with_byte :
    (offset other byte : ℕ) (bit : Bool) (m : Bitmap)
    → IsBitmap m
    → get_elem? m.bits (offset / 8) ≡ some byte
    → other < m.bitcount
    → get_bit other (with_byte (offset / 8) (byte_with bit (offset % 8) byte) m)
      ≡ (if offset == other then some bit else get_bit other m)
unfolding get_bit
get_bit-with_byte offset other byte bit m v g h =
    let b = byte_with bit (offset % 8) byte in
    let i = offset / 8 in
    let inside : ltb other m.bitcount ≡ true = lt→ltb other m.bitcount h in
    elim (Bool-cases (i == other / 8)) [
      | inl q ↦
          let ij : i ≡ other / 8 = (==_iff i (other / 8)).0 q in
          let now : get_elem? (set m.bits i b) (other / 8) ≡ some b =
            subst (λ k. get_elem? (set m.bits i b) k ≡ some b) ij
              (get_elem?-set_self m.bits i b (get_elem?-length m.bits i byte g)) in
          let before : get_elem? m.bits (other / 8) ≡ some byte =
            subst (λ k. get_elem? m.bits k ≡ some byte) ij g in
          let bits =
            has_bit-byte_with bit byte (offset % 8) (other % 8) (v.bytes i byte g) (omega arith)
              (omega arith) in
          rw inside (
            rw (now, ◌>>=◌)
              (rw (before, ◌>>=◌)
                (rw bits (
                  rw (same_offset offset other ij)
                    (some_if (offset == other) bit (has_bit byte (other % 8)))))))
      | inr q ↦
          let ne : (offset == other) ≡ false = other_byte offset other q in
          rw inside (
            rw ne (
              rw (get_elem?-set_ne m.bits i (other / 8) b λ p. absurd (ground (arith, q, p))) refl))
    ]

-- `GetBit` out of bounds
get_bit-outside : (other : ℕ) (m : Bitmap) → ltb other m.bitcount ≡ false → get_bit other m ≡ none
unfolding get_bit
get_bit-outside other m e = rw e refl

get_bit-set_bit :
    (offset other byte : ℕ) (bit : Bool) (m : Bitmap)
    → IsBitmap m
    → get_elem? m.bits (offset / 8) ≡ some byte
    → offset < m.bitcount
    → get_bit other (with_byte (offset / 8) (byte_with bit (offset % 8) byte) m)
      ≡ (if offset == other then some bit else get_bit other m)
get_bit-set_bit offset other byte bit m v g h = elim (Bool-cases (ltb other m.bitcount)) [
  | inl e ↦ get_bit-with_byte offset other byte bit m v g (ltb→lt other m.bitcount e)
  | inr e ↦
      let ne : (offset == other) ≡ false = ground (arith, e, h) in
      get_bit-outside other (with_byte (offset / 8) (byte_with bit (offset % 8) byte) m) e
      ∙ rw ne (sym (get_bit-outside other m e))
]

-- In a bitmap whose block has the bytes that its length says, `SetBit` succeeds for every offset
-- below the count and keeps the bitmap so; then `GetBit` returns at this offset the bit that was
-- set, and at every other offset what it returned before.
pub set_bit-get_bit :
    (offset : ℕ) (bit : Bool) (m : Bitmap)
    → IsBitmap m
    → offset < m.bitcount
    → (m' : Bitmap) × (set_bit offset bit m ≡ some m')
      × IsBitmap m'
      × ((other : ℕ) → get_bit other m' ≡ (if offset == other then some bit else get_bit other m))
unfolding set_bit
set_bit-get_bit offset bit m v h =
    let (byte, g) =
      get_elem?-lt m.bits (offset / 8) (omega (arith, v.length_is, v.bitcount_is, h)) in
    let b = byte_with bit (offset % 8) byte in
    (
      with_byte (offset / 8) b m,
      rw (g, ◌>>=◌) refl,
      with_byte-IsBitmap (offset / 8) b byte m v g
          (byte_with-lt bit byte (offset % 8) (v.bytes (offset / 8) byte g) (omega arith)),
      λ other. get_bit-set_bit offset other byte bit m v g h,
    )
