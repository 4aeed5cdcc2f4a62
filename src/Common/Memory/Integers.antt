-- ===== src/Common/Memory/Integers.antt =====
-- Integers as bytes.
use native.Mathlib.Nat.{pow-suc}
use dbms.Prelude.{
  ℕ, zero, suc, ◌+◌, ◌*◌, ◌/◌, ◌%◌, ◌^◌, ◌<◌, ◌≡◌, refl, [], ◌∷◌, arith, Bytes, length,
}

-- the `width` low bytes of a number, the low one first
unfoldable pub encode : ℕ → ℕ → Bytes
encode zero n = []
encode (suc width) n = (n % 256) ∷ encode width (n / 256)

unfoldable pub decode : Bytes → ℕ
decode [] = 0
decode (b ∷ bytes) = b + 256 * decode bytes

-- in network byte order: `htonl` and `htons`, then the bytes of the word
unfoldable pub be32 : ℕ → Bytes
be32 n = (n / 2 ^ 24 % 256) ∷ (n / 2 ^ 16 % 256) ∷ (n / 2 ^ 8 % 256) ∷ (n % 256) ∷ []

unfoldable pub be16 : ℕ → Bytes
be16 n = (n / 2 ^ 8 % 256) ∷ (n % 256) ∷ []

-- `ntohl` of a word that was read
unfoldable pub decode_be : Bytes → ℕ → ℕ
decode_be [] acc = acc
decode_be (b ∷ bytes) acc = decode_be bytes (256 * acc + b)

pub length-encode : (width n : ℕ) → length (encode width n) ≡ width
unfolding encode
length-encode zero n = refl
length-encode (suc width) n = omega (arith, length-encode width (n / 256))

pub decode-encode : (width n : ℕ) → n < 256 ^ width → decode (encode width n) ≡ n
unfolding encode decode
decode-encode zero n h = omega arith
decode-encode (suc width) n h =
    let h' : n < 256 ^ width * 256 = rw (← pow-suc) h in
    omega (arith, decode-encode width (n / 256) (omega arith))

pub decode_be-be32 : (n : ℕ) → n < 2 ^ 32 → decode_be (be32 n) 0 ≡ n
unfolding be32 decode_be
decode_be-be32 n h = omega arith
