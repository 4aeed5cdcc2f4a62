-- ===== src/Portal/Backend.antt =====
-- src/rrportal/session.cpp: how a message to the client is put together and sent.
pub mod Framing
use dbms.Prelude.{
  ℕ, ◌+◌, ◌-◌, Option, none, some, List, [], ◌∷◌, ◌++◌, Bytes, length, get_elem?, ◌==◌,
  if◌then◌else◌,
}
use dbms.Common.Memory.{Allocator, write, ◌>>=◌}
use dbms.Common.Memory.Integers.{be32}
use dbms.Common.Message.{MessageBuffer, append, set_size, contents}

-- `BackendMsgBegin`
unfoldable pub backend_msg_begin : Allocator → ℕ → MessageBuffer → Option MessageBuffer
backend_msg_begin m id b = do b ← append m (id ∷ []) (set_size 0 b); some (set_size (1 + 4) b)

-- A run of the functions `BackendMsgAppend…`, each of which appends the bytes of its argument.
unfoldable pub append_all : Allocator → List Bytes → MessageBuffer → Option MessageBuffer
append_all m [] b = some b
append_all m (part ∷ parts) b = append m part b >>= append_all m parts

-- the `assert` on the first byte, after the message has been sent
unfoldable pub assert_id : ℕ → MessageBuffer → Option (MessageBuffer × Bytes)
assert_id id b = elim (get_elem? b.block 0) [
  | none ↦ none
  | some first ↦ if first == id then some (b, contents b) else none
]

-- `BackendMsgEnd`, with `Send`: the buffer, and the bytes that the socket is given
unfoldable pub backend_msg_end : ℕ → MessageBuffer → Option (MessageBuffer × Bytes)
unfolding assert_id
backend_msg_end id b = do
  block ← write 1 (be32 (b.data_length - 1)) b.block
  assert_id id (record b { block = block })

-- The pattern of all messages with a body: begin, append the parts, end.
unfoldable pub send_message :
    Allocator → ℕ → List Bytes → MessageBuffer → Option (MessageBuffer × Bytes)
send_message m id parts b = do
  b ← backend_msg_begin m id b
  b ← append_all m parts b
  backend_msg_end id b

abbrev pub concat : List Bytes → Bytes
concat [] = []
concat (part ∷ parts) = part ++ concat parts
