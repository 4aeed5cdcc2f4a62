-- ===== src/Portal/Messages/Sent.antt =====
-- What the message functions give the socket.
use dbms.Prelude.{
  ℕ, ◌+◌, ◌*◌, ◌%◌, ◌^◌, ◌≤◌, ◌<◌, ◌≡◌, ap, none, some, List, [], ◌∷◌, ◌++◌, Bytes, length,
  length-append, take-length, lt→ltb, arith,
}
use dbms.Common.Memory.{Allocator, ◌>>=◌}
use dbms.Common.Memory.Integers.{be16, be32}
use mathlib.Core.List.{append-nil}
use dbms.Common.Message.{MessageBuffer, set_size, contents}
use dbms.Common.Row.{RowDesc}
use dbms.Portal.Backend.{concat}
use dbms.Portal.Backend.Framing.{
  frame, append_all-Appended, read-take, send_message-frame, send_message-overflows,
}
use dbms.Portal.Messages.{
  Sending, c_string, column_parts, columns_parts, row_description_parts, send_row_description,
  send_parts, send_error_response, send_command_complete, send_read_for_query,
}

-- The sending succeeds, gives the socket these bytes and keeps the room of the buffer.
abbrev pub Sends : Sending → MessageBuffer → Bytes → Type 0
Sends message b bytes =
    (c : MessageBuffer) × (message b ≡ some (c, bytes)) × (length c.block ≡ length b.block)

-- A short message reaches the socket whole, if it fits the block.
pub send_parts-Sends :
    (m : Allocator) (parts : List Bytes) (b : MessageBuffer)
    → length (concat parts) ≤ length b.block
    → Sends (send_parts m parts) b (concat parts)
unfolding send_parts contents set_size
send_parts-Sends m parts b h =
    let (c, e, v) = append_all-Appended m parts (set_size 0 b) (omega arith) in
    let end : c.data_length ≡ length (concat parts) = omega (arith, v.end) in
    (c, rw (e, ◌>>=◌) (ap (λ s. some (c, s)) (rw end (read-take _ c.block v.body_read))), v.size)

c_string-pos : (s : Bytes) → 1 ≤ length (c_string s)
unfolding c_string
c_string-pos [] = omega arith
c_string-pos (c ∷ s) = ground arith

columns_parts-length : (desc : RowDesc) → 19 * length desc ≤ length (concat (columns_parts desc))
unfolding columns_parts column_parts be32 be16
columns_parts-length [] = omega arith
columns_parts-length (c ∷ desc) =
    omega (arith, c_string-pos c.column_name, columns_parts-length desc, length-append {0})

-- The description of a result of fewer than 2 ^ 15 columns has two bytes and at least nineteen for
-- each column.
row_description-length :
    (desc : RowDesc)
    → length desc < 2 ^ 15
    → 2 + 19 * length desc ≤ length (concat (row_description_parts desc))
unfolding row_description_parts be16
row_description-length desc h =
    let count : length desc % 2 ^ 16 ≡ length desc = omega arith in
    rw (count, lt→ltb (length desc) (2 ^ 15) h, take-length desc)
      (omega (arith, columns_parts-length desc))

-- The description of a result of 27 columns or more, and fewer than 2 ^ 15, does not fit the 512
-- bytes that a message buffer is born with, whatever the names: `SendRowDescription` then writes
-- past the end of the buffer.
pub row_description-overflows :
    (m : Allocator) (desc : RowDesc) (b : MessageBuffer)
    → length b.block ≡ 512
    → 27 ≤ length desc
    → length desc < 2 ^ 15
    → send_row_description m desc b ≡ none
unfolding send_row_description
row_description-overflows m desc b e lo hi =
    send_message-overflows m b'T' (row_description_parts desc) b (omega arith)
      (omega (arith, row_description-length desc hi))

-- An error response whose text has at most 503 bytes fits, and is framed with its field code.
pub send_error_response-Sends :
    (m : Allocator) (msg : Bytes) (b : MessageBuffer)
    → 7 + length (c_string msg) ≤ length b.block
    → Sends (send_error_response m msg) b (frame b'E' (b'M' ∷ (c_string msg ++ 0 ∷ [])))
unfolding send_error_response
send_error_response-Sends m msg b h =
    send_message-frame m b'E' ((b'M' ∷ []) ∷ c_string msg ∷ (0 ∷ []) ∷ []) b
      (omega (arith, length-append {0}))

pub send_command_complete-Sends :
    (m : Allocator) (msg : Bytes) (b : MessageBuffer)
    → 5 + length (c_string msg) ≤ length b.block
    → Sends (send_command_complete m msg) b (frame b'C' (c_string msg))
unfolding send_command_complete
send_command_complete-Sends m msg b h =
    rw append-nil at
      (send_message-frame m b'C' (c_string msg ∷ []) b (omega (arith, length-append {0})))

pub send_read_for_query-Sends :
    (m : Allocator) (status : ℕ) (b : MessageBuffer)
    → 6 ≤ length b.block
    → Sends (send_read_for_query m status) b (b'Z' ∷ (be32 5 ++ status ∷ []))
unfolding send_read_for_query be32
send_read_for_query-Sends m status b h =
    send_parts-Sends m ((b'Z' ∷ []) ∷ be32 5 ∷ (status ∷ []) ∷ []) b h
