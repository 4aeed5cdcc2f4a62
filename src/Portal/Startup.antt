-- ===== src/Portal/Startup.antt =====
-- src/rrportal/session.cpp: `ProcessStartupPacket`, with which a client opens a session, and `Thread`,
-- which runs one. SSL is not compiled in.
pub mod Options
pub mod Ends
pub mod Threads
pub mod Opening
pub mod Versions
use dbms.Prelude.{
  ℕ, zero, suc, ◌+◌, ◌-◌, ◌*◌, ◌/◌, ◌%◌, ◌^◌, Option, none, some, List, [], ◌∷◌, ◌++◌, Bool, true,
  false, Bytes, length, drop, ltb, ◌==◌, not, ◌||◌, ◌&&◌, if◌then◌else◌, bytes_eq, codes,
}
use dbms.Common.Memory.{Allocator, read, write}
use dbms.Common.Memory as Memory
use dbms.Common.Memory.Integers.{encode, decode_be}
use dbms.Common.Define.{State}
use dbms.Portal.Messages.{
  send_auth_request, send_parameter_status, send_backend_key_data, send_read_for_query,
}
use dbms.Portal.Session.{
  Session, Outcome, done, throws, fault, out_of_fuel, Action, pure, continue, ◌>>=◌, ◌>>◌, gets,
  modify, or_fault, receive, receive_into, send, main_loop,
}

-- `PG_PROTOCOL`, `PG_PROTOCOL_MAJOR` and `PG_PROTOCOL_MINOR`
abbrev pub pg_protocol : ℕ → ℕ → ℕ
pg_protocol major minor = major * 2 ^ 16 + minor

abbrev pub pg_protocol_major : ℕ → ℕ
pg_protocol_major v = v / 2 ^ 16

abbrev pub pg_protocol_minor : ℕ → ℕ
pg_protocol_minor v = v % 2 ^ 16

abbrev pub cancel_request_code : ℕ
cancel_request_code = pg_protocol 1234 5678

abbrev pub negotiate_ssl_code : ℕ
negotiate_ssl_code = pg_protocol 1234 5679

-- the test for a version that is not supported; the earliest is 2.0 and the latest 3.0
unfoldable pub is_unsupported : ℕ → Bool
is_unsupported proto =
    let major = pg_protocol_major proto in
    ltb major 2 || ltb 3 major || (major == 3 && ltb 0 (pg_protocol_minor proto))

-- `strlen` and the bytes that it counts; none where no byte is zero up to the end of the block
unfoldable pub until_zero : Bytes → Option Bytes
until_zero [] = none
until_zero (c ∷ s) =
    let rest = until_zero s in if c == 0 then some [] else Memory.◌>>=◌ rest λ t. some (c ∷ t)

-- what the loop does with a name and its value
unfoldable pub set_option : Bytes → Bytes → Session → Session
set_option name value s =
    let s' =
      if bytes_eq name (codes "database")
      then record s { database_name = value }
      else if bytes_eq name (codes "user")
      then record s { user_name = value }
      else if bytes_eq name (codes "options")
      then record s { cmdline_options = value }
      else s in
    record s' { guc_options = s'.guc_options ++ (name, value) ∷ [] }

-- A round of the loop over the names and values of a packet of `len` bytes, on what is read at the
-- offset of the value and at that of the name; `again` goes on from the next offset, which is a
-- number without a bound here and an `int32_t` in the code: that differs only for packets of 2 ^ 31
-- bytes and more.
unfoldable pub option_value : (ℕ → Action ℕ) → Bytes → ℕ → Option Bytes → Action ℕ
unfolding set_option
option_value again name valoffset none s = fault
option_value again name valoffset (some value) s =
    again (valoffset + length value + 1) (set_option name value s)

-- Offsets are an `int32_t`. The conversion of one from 2 ^ 31 on is left to the implementation, and
-- is a fault here, for any implementation.
unfoldable pub option_name : (ℕ → Action ℕ) → Bytes → ℕ → ℕ → Option Bytes → Action ℕ
unfolding until_zero option_value
option_name again block len offset none s = fault
option_name again block len offset (some []) s = done offset s
option_name again block len offset (some (c ∷ name)) s =
    let valoffset = offset + length (c ∷ name) + 1 in
    elim (ltb valoffset (2 ^ 31)) [
      | false ↦ fault
      | true ↦ elim (ltb valoffset len) [
        | false ↦ done offset s
        | true ↦ option_value again (c ∷ name) valoffset (until_zero (drop valoffset block)) s
      ]
    ]

-- the loop, to the offset at which it ends
unfoldable pub scan_options : ℕ → Bytes → ℕ → ℕ → Action ℕ
unfolding until_zero option_name
scan_options zero block len offset s = out_of_fuel
scan_options (suc fuel) block len offset s = elim (ltb offset len) [
  | false ↦ done offset s
  | true ↦
      option_name (scan_options fuel block len) block len offset (until_zero (drop offset block)) s
]

-- the scan of a packet of version 3, which is to end at the last byte, and the answer
unfoldable pub accept : Allocator → ℕ → Bytes → ℕ → Action Bool
unfolding scan_options
accept m proto block len = do
  offset ← scan_options (suc len) block len 4
  if offset == (len + 2 ^ 32 - 1) % 2 ^ 32
      then (do
        modify (λ s. record s { proto_version = proto })
        send (send_auth_request m)
        pure true)
      else pure false

-- The protocol version is turned into the order of the host where it lies.
unfoldable pub proto_of_packet : Action (ℕ × Bytes)
proto_of_packet = do
  s ← gets (λ s. s)
  word ← or_fault (read 0 4 s.read_msg.block)
  let proto = decode_be word 0
  block ← or_fault (write 0 (encode 4 proto) s.read_msg.block)
  modify (λ s. record s { read_msg = record s.read_msg { block = block } })
  pure (proto, block)

-- The function, with the call of itself. The length of a packet counts its own bytes.
unfoldable pub startup_packet : Allocator → Bool → Action Bool → Action Bool
unfolding receive receive_into proto_of_packet is_unsupported accept
startup_packet m ssl_done again = do
  word ← receive 4
  let len = (decode_be word 0 + 2 ^ 32 - 4) % 2 ^ 32
  receive_into m len
  packet ← proto_of_packet
  let proto = packet.0
  if proto == cancel_request_code
      then pure false
      else if proto == negotiate_ssl_code && not ssl_done
      then (do modify (λ s. record s { outgoing = s.outgoing ++ b'N' ∷ [] }); again)
      else if is_unsupported proto
      then pure false
      else if ltb (pg_protocol_major proto) 3
      then pure false
      else accept m proto packet.1 len

-- `ProcessStartupPacket`: a first request for SSL is answered, and the next packet is read; with
-- `ssl_done` the function does not call itself.
unfoldable pub process_startup_packet : Allocator → Bool → Action Bool
unfolding startup_packet
process_startup_packet m true = startup_packet m true (pure false)
process_startup_packet m false = startup_packet m false (startup_packet m true (pure false))

-- the body of the `try` in `Thread`
unfoldable pub converse : Allocator → (Bytes → Action (Unit {0})) → ℕ → Action (Unit {0})
unfolding process_startup_packet main_loop send
converse m query fuel = do
  started ← process_startup_packet m false
  if started
      then (do
        options ← gets (λ s. s.guc_options)
        send (send_parameter_status m options)
        send (send_backend_key_data m)
        send (send_read_for_query m b'I')
        main_loop m query fuel)
      else pure tt

abbrev pub is_terminated : State → Bool
is_terminated State.frontend_terminate = true
is_terminated _ = false

-- whether the session leaves the manager
abbrev pub leaves : Session → Bool
leaves s = s.stop && is_terminated s.state

-- What is left of a conversation when it ends: a `std::runtime_error`, the only exception of the
-- model, ends it as a return does.
abbrev pub caught : Outcome (Unit {0}) → Outcome Bool
caught (done u s) = done (leaves s) s
caught (throws s) = done (leaves s) s
caught fault = fault
caught out_of_fuel = out_of_fuel

-- `Thread`
unfoldable pub thread : Allocator → (Bytes → Action (Unit {0})) → ℕ → Action Bool
unfolding converse
thread m query fuel s = caught (converse m query fuel s)
