-- ===== src/Common/Message.antt =====
-- src/include/common/message.h: the buffer of a message. Sizes do not wrap: they stay below 2 ^ 63.
pub mod Bounds
use dbms.Prelude.{
  ℕ, ◌+◌, ◌*◌, Option, some, Bytes, Bool, ◌&&◌, ◌||◌, length, take, ltb, if◌then◌else◌,
}
use dbms.Common.Memory.{Allocator, realloc, write, ◌>>=◌}

-- `data` is the block that `data_` points to; its length is what was allocated.
pub record MessageBuffer : Type 0 where
  pub block : Bytes
  pub data_length : ℕ
  pub buffer_length : ℕ

-- the enumerator `buffer_length`
abbrev pub initial_length : ℕ
initial_length = 512

-- the constructor: 512 bytes are allocated, and `buffer_length_` is 0
unfoldable pub new_buffer : Allocator → MessageBuffer
new_buffer m = record { block = m.malloc initial_length; data_length = 0; buffer_length = 0 }

-- `ReAlloc`. The product with 0.2 of a size below 2 ^ 50 is above `size` where five times the size
-- is below it.
unfoldable pub re_alloc : Allocator → ℕ → MessageBuffer → MessageBuffer
re_alloc m size b =
    if ltb b.buffer_length size
      || (ltb (5 * size) b.buffer_length && ltb initial_length b.buffer_length)
    then record b { buffer_length = size; block = realloc m size b.block }
    else b

-- the branch of `Append` that makes room
make_room : Allocator → ℕ → MessageBuffer → MessageBuffer
unfolding re_alloc
make_room m len b =
    if ltb b.buffer_length (b.data_length + len)
    then (let size = (b.data_length + len) * 2 in
        re_alloc m size (record b { buffer_length = size }))
    else b

-- `Append`
unfoldable pub append : Allocator → Bytes → MessageBuffer → Option MessageBuffer
unfolding make_room
append m bytes b = do
  let b = make_room m (length bytes) b
  block ← write b.data_length bytes b.block
  some (record b { block = block; data_length = b.data_length + length bytes })

-- `SetSize`
unfoldable pub set_size : ℕ → MessageBuffer → MessageBuffer
set_size size b = record b { data_length = size }

-- the bytes from `Data()` on, as many as `GetSize()`
unfoldable pub contents : MessageBuffer → Bytes
contents b = take b.data_length b.block
