-- ===== src/Portal/Session.antt =====
-- src/rrportal/session.cpp: a session as actions on its state. The socket is the bytes that the
-- client will still send and those that it was sent; a read past the end of the former throws, as
-- `boost::asio::read` does when the client has closed the connection.
pub mod Query
pub mod Loop
use dbms.Prelude.{
  ℕ, zero, suc, ◌+◌, ◌-◌, ◌*◌, ◌/◌, ◌%◌, ◌^◌, Option, none, some, List, [], ◌∷◌, ◌++◌, Bool, true,
  false, Bytes, length, take, drop, ltb, ◌==◌, not, ◌||◌, ◌&&◌, if◌then◌else◌,
}
use dbms.Common.Memory.{Allocator, write}
use dbms.Common.Memory.Integers.{decode_be}
use dbms.Common.Define.{State}
use dbms.Common.Message.{MessageBuffer, re_alloc, set_size, contents}
use dbms.Portal.Messages.{Sending}

-- `manager_` is whether the connection manager still holds the session; the thread, the storage
-- pointer and the queue of `deliver`, which nothing calls, are left out.
pub record Session : Type 0 where
  pub incoming : Bytes
  pub outgoing : Bytes
  pub read_msg : MessageBuffer
  pub write_msg : MessageBuffer
  pub database_name : Bytes
  pub user_name : Bytes
  pub cmdline_options : Bytes
  pub guc_options : List (Bytes × Bytes)
  pub proto_version : ℕ
  pub state : State
  pub stop : Bool

-- An action returns, throws a `std::runtime_error`, runs into undefined behaviour or a failed
-- `assert`, or uses up the fuel of a loop.
pub data Outcome {ℓ} (A : Type ℓ) : Type ℓ where
  done : A → Session → Outcome A
  throws : Session → Outcome A
  fault : Outcome A
  out_of_fuel : Outcome A

abbrev pub Action {ℓ} : Type ℓ → Type ℓ
Action A = Session → Outcome A

abbrev pub pure {ℓ} : {A : Type ℓ} → A → Action A
pure a s = done a s

abbrev pub continue {ℓ κ} : {A : Type ℓ} {B : Type κ} → Outcome A → (A → Action B) → Outcome B
continue (done a s) f = f a s
continue (throws s) f = throws s
continue fault f = fault
continue out_of_fuel f = out_of_fuel

infixl 5 ◌>>=◌ ◌>>◌
abbrev pub ◌>>=◌ {ℓ κ} : {A : Type ℓ} {B : Type κ} → Action A → (A → Action B) → Action B
◌>>=◌ m f s = continue (m s) f

abbrev pub ◌>>◌ {ℓ κ} : {A : Type ℓ} {B : Type κ} → Action A → Action B → Action B
m >> k = m >>= λ _. k

abbrev pub gets {ℓ} : {A : Type ℓ} → (Session → A) → Action A
gets f s = done (f s) s

abbrev pub modify : (Session → Session) → Action (Unit {0})
modify f s = done tt (f s)

-- a step that is undefined where the option is empty
abbrev pub or_fault {ℓ} : {A : Type ℓ} → Option A → Action A
or_fault none s = fault
or_fault (some a) s = done a s

-- `boost::asio::read` of `n` bytes
unfoldable pub receive : ℕ → Action Bytes
receive n s =
    if ltb (length s.incoming) n
    then throws (record s { incoming = [] })
    else done (take n s.incoming) (record s { incoming = drop n s.incoming })

-- A message put together in `write_msg_` and written to the socket. The write succeeds: the
-- exceptions of `boost::asio::write` are not modelled.
unfoldable pub send : Sending → Action (Unit {0})
send message = do
  s ← gets (λ s. s)
  sent ← or_fault (message s.write_msg)
  modify (λ s. record s { write_msg = sent.0; outgoing = s.outgoing ++ sent.1 })

-- make room in `read_msg_`, and read `len` bytes from the socket into it
unfoldable pub receive_into : Allocator → ℕ → Action (Unit {0})
unfolding receive
receive_into m len = do
  modify (λ s. record s { read_msg = set_size len (re_alloc m len s.read_msg) })
  bytes ← receive len
  s ← gets (λ s. s)
  block ← or_fault (write 0 bytes s.read_msg.block)
  modify (λ s. record s { read_msg = record s.read_msg { block = block } })

-- `ReadBody`. `len` is a signed number: from 2 ^ 31 on it is negative, and four below the least
-- number the subtraction overflows.
unfoldable pub read_body : Allocator → Action Bool
unfolding receive_into
read_body m = do
  word ← receive 4
  let len = decode_be word 0
  if ltb len 4 || not (ltb len (2 ^ 31 + 4))
      then pure false
      else if ltb len (2 ^ 31)
      then (do receive_into m (len - 4); pure true)
      else (λ s. fault)

-- `RecvCommand`: a body that cannot be read makes the kind 0.
unfoldable pub recv_command : Allocator → Action ℕ
unfolding read_body
recv_command m = do kind ← receive 1; ok ← read_body m; pure (if ok then decode_be kind 0 else 0)

-- `MainLoop`, with the handler of a simple query
unfoldable pub main_loop : Allocator → (Bytes → Action (Unit {0})) → ℕ → Action (Unit {0})
main_loop m query zero s = out_of_fuel
main_loop m query (suc fuel) s =
    let again = main_loop m query fuel in
    if s.stop
    then done tt s
    else (do
      qtype ← recv_command m
      msg ← gets (λ s. contents s.read_msg)
      if qtype == b'Q'
          then query msg
          else if qtype == b'X'
          then modify (λ s. record s { state = State.frontend_terminate; stop = true })
          else pure tt
      again)
        s

-- `RecvCopyData`: the loop returns in its first round.
unfoldable pub recv_copy_data : Allocator → Action Bytes
recv_copy_data m s =
    if s.stop
    then done [] s
    else (do
      qtype ← recv_command m
      msg ← gets (λ s. contents s.read_msg)
      pure (if qtype == b'd' then msg else []))
        s
