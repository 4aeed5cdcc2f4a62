-- ===== src/Common/Message/Bounds.antt =====
-- How much room a message buffer has.
use dbms.Prelude.{
  ℕ, ◌+◌, ◌≤◌, ◌<◌, ◌≡◌, refl, none, some, Bytes, ◌++◌, take, drop, arith, length, length-append,
  length-take, length-drop,
}
use dbms.Common.Memory.{Allocator, realloc, write, ◌>>=◌}
use dbms.Common.Memory.Writes.{length-write, write-none, write-total, take-write}
use dbms.Common.Message.{MessageBuffer, re_alloc, make_room, append, contents}

length-realloc : (m : Allocator) (size : ℕ) (b : Bytes) → length (realloc m size b) ≡ size
unfolding realloc
length-realloc m size b = omega (
  arith,
  length-append (take size b) (drop (length b) (m.malloc size)),
  length-take size b,
  length-drop (length b) (m.malloc size),
  m.length-malloc size,
)

-- `ReAlloc` keeps `buffer_length_` within what is allocated, and makes room for the size asked for.
pub re_alloc-room :
    (m : Allocator) (size : ℕ) (b : MessageBuffer)
    → b.buffer_length ≤ length b.block
    → (size ≤ length (re_alloc m size b).block)
      × ((re_alloc m size b).buffer_length ≤ length (re_alloc m size b).block)
unfolding re_alloc
re_alloc-room m size b h = ground (arith, length-realloc m size b.block)

make_room-block :
    (m : Allocator) (len : ℕ) (b : MessageBuffer)
    → ((make_room m len b).block ≡ b.block) × ((make_room m len b).data_length ≡ b.data_length)
unfolding make_room
make_room-block m len b = ground arith

pub append-some :
    (m : Allocator) (bytes : Bytes) (b : MessageBuffer) {c : MessageBuffer}
    → append m bytes b ≡ some c
    → (write b.data_length bytes b.block ≡ some c.block)
      × (c.data_length ≡ b.data_length + length bytes)
unfolding append
append-some m bytes b h = ground (arith, make_room-block m (length bytes) b)

-- The cases of `Append`.
pub append-fits :
    (m : Allocator) (bytes : Bytes) (b : MessageBuffer)
    → ((b.data_length + length bytes ≤ length b.block)
        → (c : MessageBuffer) × (append m bytes b ≡ some c))
      × ((length b.block < b.data_length + length bytes) → append m bytes b ≡ none)
      × ((c : MessageBuffer)
          → append m bytes b ≡ some c
          → (length c.block ≡ length b.block)
            × (c.data_length ≡ b.data_length + length bytes)
            × (contents c ≡ contents b ++ bytes))
unfolding append contents
append-fits m bytes b =
    let (same_block, same_length) = make_room-block m (length bytes) b in
    (
      λ h.
          let (c, e) = write-total b.data_length bytes b.block h in
          (
            record (make_room m (length bytes) b) {
              block = c;
              data_length = b.data_length + length bytes;
            },
            rw (same_block, same_length, e, ◌>>=◌) refl,
          ),
      λ h. rw (same_block, same_length, write-none b.data_length bytes b.block h, ◌>>=◌) refl,
      λ c e.
          let (w, l) = append-some m bytes b e in
          (
            length-write b.data_length bytes b.block w,
            l,
            rw l (take-write b.data_length bytes b.block w),
          ),
    )

-- Bytes that fit what is allocated are appended to the contents, and the block keeps its size.
pub append-contents :
    (m : Allocator) (bytes : Bytes) (b : MessageBuffer)
    → b.data_length + length bytes ≤ length b.block
    → (c : MessageBuffer) × (append m bytes b ≡ some c)
      × (contents c ≡ contents b ++ bytes)
      × (length c.block ≡ length b.block)
append-contents m bytes b h =
    let (fit, over, after) = append-fits m bytes b in
    let (c, e) = fit h in let (l, d, k) = after c e in (c, e, k, l)

-- Bytes that do not fit what is allocated are written past the end of the block: `Append` does not
-- enlarge it.
pub append-overflows :
    (m : Allocator) (bytes : Bytes) (b : MessageBuffer)
    → length b.block < b.data_length + length bytes
    → append m bytes b ≡ none
append-overflows m bytes b h = (append-fits m bytes b).1 h
