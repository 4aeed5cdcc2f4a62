-- ===== src/Portal/Startup/Versions.antt =====
-- Which clients are let in.
use dbms.Prelude.{
  ℕ, suc, ◌+◌, ◌-◌, ◌%◌, ◌^◌, ◌≡◌, refl, Option, none, some, Bool, true, false, Bytes, [], ◌∷◌,
  ◌++◌, ltb, ◌==◌, not, ◌&&◌, if◌then◌else◌, arith,
}
use dbms.Common.Memory.{Allocator}
use dbms.Common.Memory.Integers.{decode_be}
use dbms.Common.Message.{MessageBuffer}
use dbms.Portal.Messages.{Sending, send_auth_request}
use dbms.Portal.Session.{
  Session, Outcome, done, throws, fault, out_of_fuel, Action, pure, continue, or_fault, modify,
  receive, receive_into, send,
}
use dbms.Portal.Startup.{
  pg_protocol, pg_protocol_major, cancel_request_code, negotiate_ssl_code, is_unsupported,
  scan_options, accept, proto_of_packet, startup_packet, process_startup_packet,
}

-- Where the action returns, this holds of the result and the session.
abbrev pub Ensures {ℓ κ} : {A : Type ℓ} → (A → Session → Type κ) → Outcome A → Type κ
Ensures P (done a s) = P a s
Ensures P (throws s) = Unit
Ensures P fault = Unit
Ensures P out_of_fuel = Unit

Ensures-bind {ℓ κ} :
    {A : Type ℓ} {B : Type κ} (P : B → Session → Type 0) (o : Outcome A) (f : A → Action B)
    → ((a : A) (t : Session) → Ensures P (f a t))
    → Ensures P (continue o f)
Ensures-bind P (done a s) f h = h a s
Ensures-bind P (throws s) f h = tt
Ensures-bind P fault f h = tt
Ensures-bind P out_of_fuel f h = tt

Ensures-then {ℓ κ} :
    {A : Type ℓ} {B : Type κ} (Q : A → Session → Type 0) (P : B → Session → Type 0) (o : Outcome A)
    (f : A → Action B)
    → Ensures Q o
    → ((a : A) (t : Session) → Q a t → Ensures P (f a t))
    → Ensures P (continue o f)
Ensures-then Q P (done a s) f q h = h a s q
Ensures-then Q P (throws s) f q h = tt
Ensures-then Q P fault f q h = tt
Ensures-then Q P out_of_fuel f q h = tt

-- a session that is let in speaks version 3.0
abbrev pub Speaks : Bool → Session → Type 0
Speaks false s = Unit
Speaks true s = s.proto_version ≡ pg_protocol 3 0

Ensures-if :
    (b : Bool) (x y : Action Bool) (s : Session)
    → (b ≡ true → Ensures Speaks (x s))
    → (b ≡ false → Ensures Speaks (y s))
    → Ensures Speaks ((if b then x else y) s)
Ensures-if true x y s hx hy = hx refl
Ensures-if false x y s hx hy = hy refl

send-version :
    (message : Sending) (v : ℕ) (s : Session)
    → s.proto_version ≡ v
    → Ensures (λ u t. t.proto_version ≡ v) (send message s)
unfolding send
send-version message v s h = sent (message s.write_msg)
  where
    sent :
        (o : Option (MessageBuffer × Bytes))
        → Ensures
            (λ u t. t.proto_version ≡ v)
            (continue (or_fault o s) (λ sent.
              modify (λ s. record s { write_msg = sent.0; outgoing = s.outgoing ++ sent.1 })))
    sent none = tt
    sent (some c) = h

accept-Speaks :
    (m : Allocator) (block : Bytes) (len : ℕ) (s : Session)
    → Ensures Speaks (accept m (pg_protocol 3 0) block len s)
unfolding accept
accept-Speaks m block len s =
    Ensures-bind Speaks (scan_options (suc len) block len 4 s) _ λ offset t.
      Ensures-if (offset == (len + 2 ^ 32 - 1) % 2 ^ 32) _ (pure false) t
        (λ _.
          let v = pg_protocol 3 0 in
          let t' = record t { proto_version = v } in
          Ensures-then (λ u t. t.proto_version ≡ v) Speaks (send (send_auth_request m) t')
            (λ _. pure true) (send-version (send_auth_request m) v t' refl) (λ _ u h. h))
        (λ _. tt)

supported :
    (proto : ℕ)
    → is_unsupported proto ≡ false
    → ltb (pg_protocol_major proto) 3 ≡ false
    → proto ≡ pg_protocol 3 0
unfolding is_unsupported
supported proto h k = ground arith

startup_packet-Speaks :
    (m : Allocator) (ssl_done : Bool) (again : Action Bool)
    → ((t : Session) → Ensures Speaks (again t))
    → (s : Session) → Ensures Speaks (startup_packet m ssl_done again s)
unfolding startup_packet
startup_packet-Speaks m ssl_done again h s = Ensures-bind Speaks (receive 4 s) _ λ word t.
    let len = (decode_be word 0 + 2 ^ 32 - 4) % 2 ^ 32 in
    Ensures-bind Speaks (receive_into m len t) _ λ _ u.
      Ensures-bind Speaks (proto_of_packet u) _ λ packet w.
        let proto = packet.0 in
        Ensures-if (proto == cancel_request_code) (pure false) _ w (λ _. tt)
          λ _.
            Ensures-if (proto == negotiate_ssl_code && not ssl_done) _ _ w
              (λ _. h (record w { outgoing = w.outgoing ++ b'N' ∷ [] }))
              λ _.
                Ensures-if (is_unsupported proto) (pure false) _ w (λ _. tt)
                  λ no.
                    Ensures-if (ltb (pg_protocol_major proto) 3) (pure false)
                      (accept m proto packet.1 len) w (λ _. tt)
                      λ high. rw (supported proto no high) (accept-Speaks m packet.1 len w)

-- Whatever a client sends, `ProcessStartupPacket` lets it in only with version 3.0, which is then
-- the version of the session.
pub process_startup_packet-Speaks :
    (m : Allocator) (ssl_done : Bool) (s : Session)
    → Ensures Speaks (process_startup_packet m ssl_done s)
unfolding process_startup_packet
process_startup_packet-Speaks m true s = startup_packet-Speaks m true (pure false) (λ t. tt) s
process_startup_packet-Speaks m false s =
    startup_packet-Speaks m false (startup_packet m true (pure false))
      (startup_packet-Speaks m true (pure false) (λ t. tt)) s
