-- ===== src/Common/Memory.antt =====
-- Blocks of memory as lists of bytes: `malloc`, `realloc`, `memcpy`, and integers as they lie there
-- (x86: the low byte first; in network order: the high byte first). An access outside a block is
-- undefined behaviour, which is `none` here.
pub mod Integers
pub mod Writes
use dbms.Prelude.{
  ℕ, ◌+◌, ◌≡◌, refl, Option, none, some, List, ◌++◌, arith, Bytes, leb, if◌then◌else◌, length, take,
  drop,
}

-- What a fresh block holds is not known, but for its length.
pub record Allocator : Type 0 where
  pub malloc : ℕ → Bytes
  pub length-malloc : (n : ℕ) → length (malloc n) ≡ n

-- `realloc` keeps the bytes that fit, and leaves the rest of a larger block unknown.
unfoldable pub realloc : Allocator → ℕ → Bytes → Bytes
realloc a size block = take size block ++ drop (length block) (a.malloc size)

-- `memcpy` into a block at an offset
unfoldable pub write : ℕ → Bytes → Bytes → Option Bytes
write offset bytes block =
    if leb (offset + length bytes) (length block)
    then some (take offset block ++ (bytes ++ drop (offset + length bytes) block))
    else none

-- the bytes of a block from an offset on
unfoldable pub read : ℕ → ℕ → Bytes → Option Bytes
read offset size block =
    if leb (offset + size) (length block) then some (take size (drop offset block)) else none

infixl 5 ◌>>=◌ ◌>>◌
abbrev pub ◌>>=◌ {ℓ κ} : {A : Type ℓ} {B : Type κ} → Option A → (A → Option B) → Option B
none >>= f = none
some a >>= f = f a

abbrev pub ◌>>◌ {ℓ κ} : {A : Type ℓ} {B : Type κ} → Option A → Option B → Option B
m >> k = m >>= λ _. k

-- What a chain of steps that succeeds went through.
pub bind_some {ℓ κ} :
    {A : Type ℓ} {B : Type κ} (o : Option A) (f : A → Option B) (b : B)
    → o >>= f ≡ some b
    → (a : A) × (o ≡ some a) × (f a ≡ some b)
bind_some none f b h = absurd (ground (arith, h))
bind_some (some a) f b h = (a, refl, h)
