-- ===== src/Portal/Messages.antt =====
-- src/rrportal/session.cpp: the messages to the client, each its kind and the parts of its body.
pub mod Sent
use dbms.Prelude.{
  ℕ, zero, suc, ◌+◌, ◌-◌, ◌%◌, ◌^◌, Option, none, some, List, [], ◌∷◌, ◌++◌, map, Bytes, length,
  take, replicate, ltb, ◌==◌, ◌||◌, if◌then◌else◌,
}
use dbms.Common.Memory.{Allocator, ◌>>=◌}
use dbms.Common.Memory.Integers.{be16, be32}
use dbms.Common.Define.{DataType, dt_integer, dt_date, dt_varchar}
use dbms.Common.Tuple.{Slot, get_integer, get_value, get_slot}
use dbms.Common.Row.{ColumnDesc, RowDesc, TupleRow, get_tuple}
use dbms.Common.Message.{MessageBuffer, append, set_size, contents}
use dbms.Portal.Backend.{send_message, append_all}
use dbms.Portal.Decimal.{print_int64}

-- `const char *` of a string: its bytes up to the first zero, and a zero
unfoldable pub c_string : Bytes → Bytes
c_string [] = 0 ∷ []
c_string (c ∷ s) = let rest = c_string s in if c == 0 then 0 ∷ [] else c ∷ rest

-- what every message function does to the buffer and gives the socket
abbrev pub Sending : Type 0
Sending = MessageBuffer → Option (MessageBuffer × Bytes)

-- the body of the loop of `SendRowDescription`
unfoldable pub column_parts : ColumnDesc → List Bytes
column_parts c =
    c_string c.column_name
    ∷ be32 c.relation_id
    ∷ be16 c.attribute_id
    ∷ be32 c.data_type
    ∷ be16 c.data_type_size
    ∷ be32 (2 ^ 32 - 1)
    ∷ be16 0
    ∷ []

unfoldable pub columns_parts : List ColumnDesc → List Bytes
columns_parts [] = []
columns_parts (c ∷ columns) = column_parts c ++ columns_parts columns

-- `int16_t columns_count` bounds the loop: from 2 ^ 15 on it is negative.
unfoldable pub row_description_parts : RowDesc → List Bytes
row_description_parts desc =
    let count = length desc % 2 ^ 16 in
    be16 count ∷ columns_parts (if ltb count (2 ^ 15) then take count desc else [])

-- `SendRowDescription`
unfoldable pub send_row_description : Allocator → RowDesc → Sending
unfolding row_description_parts
send_row_description m desc = send_message m b'T' (row_description_parts desc)

-- the `switch` on the type of a column
unfoldable pub column_value : DataType → Slot → Bytes → Option Bytes
column_value type slot tuple =
    if type == dt_integer || type == dt_date
    then (do v ← get_integer slot.offset tuple; some (print_int64 v))
    else if type == dt_varchar
    then get_value slot.offset slot.length tuple
    else some []

-- the loop of `SendRowData`, from the `i`-th column on
unfoldable pub row_data_parts : ℕ → RowDesc → Bytes → Option (List Bytes)
row_data_parts i [] tuple = some []
row_data_parts i (c ∷ columns) tuple = do
  slot ← get_slot i tuple
  value ← column_value c.data_type slot tuple
  rest ← row_data_parts (suc i) columns tuple
  some (be32 (length value) ∷ value ∷ rest)

-- `SendRowData`: the tuple is looked at for a column only
unfoldable pub send_row_data : Allocator → TupleRow → RowDesc → Sending
unfolding row_data_parts column_value
send_row_data m row desc b = do
  let number = length desc % 2 ^ 16
  tuple ← if number == 0 then some [] else get_tuple 0 row
  parts ← row_data_parts 0 (take number desc) tuple
  send_message m b'D' (be16 number ∷ parts) b

-- `SendCopyData`: the empty text ends the copy
unfoldable pub send_copy_data : Allocator → Bytes → Sending
send_copy_data m [] = send_message m b'c' ([] ∷ [])
send_copy_data m (c ∷ msg) = send_message m b'd' ((c ∷ msg) ∷ [])

-- `SendCommandComplete`
unfoldable pub send_command_complete : Allocator → Bytes → Sending
send_command_complete m msg = send_message m b'C' (c_string msg ∷ [])

-- `SendErrorResponse`
unfoldable pub send_error_response : Allocator → Bytes → Sending
send_error_response m msg = send_message m b'E' ((b'M' ∷ []) ∷ c_string msg ∷ (0 ∷ []) ∷ [])

-- the parts of `SendCopyInResponse` and `SendCopyOutResponse`, for a count that is not negative
unfoldable pub copy_response_parts : ℕ → List Bytes
copy_response_parts columns = (0 ∷ []) ∷ be16 columns ∷ replicate columns (be16 0)

unfoldable pub send_copy_in_response : Allocator → ℕ → Sending
unfolding copy_response_parts
send_copy_in_response m columns = send_message m b'G' (copy_response_parts columns)

unfoldable pub send_copy_out_response : Allocator → ℕ → Sending
unfolding copy_response_parts
send_copy_out_response m columns = send_message m b'H' (copy_response_parts columns)

-- The short messages write their length themselves: a run of `Append` on an emptied buffer.
unfoldable pub send_parts : Allocator → List Bytes → Sending
send_parts m parts b = do b ← append_all m parts (set_size 0 b); some (b, contents b)

-- `SendAuthRequest`
unfoldable pub send_auth_request : Allocator → Sending
unfolding send_parts
send_auth_request m = send_parts m ((b'R' ∷ []) ∷ be32 8 ∷ be32 0 ∷ [])

-- `SendReadForQuery`
unfoldable pub send_read_for_query : Allocator → ℕ → Sending
unfolding send_parts
send_read_for_query m status = send_parts m ((b'Z' ∷ []) ∷ be32 (4 + 1) ∷ (status ∷ []) ∷ [])

-- `SendBackendKeyData`
unfoldable pub send_backend_key_data : Allocator → Sending
unfolding send_parts
send_backend_key_data m = send_parts m ((b'K' ∷ []) ∷ be32 (4 + 4 + 4) ∷ be32 0 ∷ be32 0 ∷ [])

-- the loop of `SendParameterStatus`; the value is taken from the name
unfoldable pub parameter_parts : List (Bytes × Bytes) → List Bytes
parameter_parts [] = []
parameter_parts ((name, _) ∷ options) =
    let value = name in
    (b'S' ∷ [])
    ∷ be32 (4 + length name + 1 + length value + 1)
    ∷ (name ++ 0 ∷ [])
    ∷ (value ++ 0 ∷ [])
    ∷ parameter_parts options

-- `SendParameterStatus`
unfoldable pub send_parameter_status : Allocator → List (Bytes × Bytes) → Sending
unfolding send_parts parameter_parts
send_parameter_status m options = send_parts m (parameter_parts options)
