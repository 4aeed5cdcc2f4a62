-- ===== src/Portal/Startup/Ends.antt =====
-- The scan of a packet, the start and the conversation of a session end.
use dbms.Prelude.{
  ℕ, zero, suc, ◌+◌, ◌-◌, ◌%◌, ◌^◌, ◌<◌, ◌≡◌, refl, subst, Option, none, some, [], ◌∷◌, ◌++◌, Bool,
  true, false, Bytes, length, drop, ltb, ltb→lt, ◌==◌, not, ◌&&◌, if◌then◌else◌, arith,
}
use dbms.Common.Memory.{Allocator, read, write}
use dbms.Common.Memory.Integers.{encode, decode_be}
use dbms.Portal.Messages.{
  Sending, send_auth_request, send_parameter_status, send_backend_key_data, send_read_for_query,
}
use dbms.Portal.Session.{
  Session, Outcome, done, fault, Action, pure, continue, ◌>>=◌, ◌>>◌, modify, or_fault, receive,
  receive_into, send, main_loop,
}
use dbms.Portal.Session.Loop.{
  Leaves, Leaves-mono, Leaves-bind, Leaves-if, receive-Leaves, receive_into-Leaves,
  main_loop-Leaves,
}
use dbms.Portal.Startup.{
  until_zero, set_option, option_value, option_name, scan_options, accept, proto_of_packet,
  startup_packet, process_startup_packet, converse, is_unsupported, cancel_request_code,
  negotiate_ssl_code, pg_protocol_major,
}

set_option-incoming :
    (name value : Bytes) (s : Session) → (set_option name value s).incoming ≡ s.incoming
unfolding set_option
set_option-incoming name value s = ground arith

Leaves-bool {ℓ} :
    {A : Type ℓ} (n : ℕ) (b : Bool) (x y : Outcome A)
    → Leaves n x
    → (b ≡ true → Leaves n y)
    → Leaves n (elim b [ false ↦ x | true ↦ y ])
Leaves-bool n false x y hx hy = hx
Leaves-bool n true x y hx hy = hy refl

option_value-Leaves :
    (again : ℕ → Action ℕ) (name : Bytes) (valoffset : ℕ) (o : Option Bytes) (s : Session)
    → ((k : ℕ) (t : Session) → valoffset < k → Leaves (suc (length t.incoming)) (again k t))
    → Leaves (suc (length s.incoming)) (option_value again name valoffset o s)
unfolding option_value
option_value-Leaves again name valoffset none s h = tt
option_value-Leaves again name valoffset (some value) s h =
    let k = valoffset + length value + 1 in
    let s' = set_option name value s in
    subst (λ i. Leaves (suc (length i)) (again k s')) (set_option-incoming name value s)
      (h k s' (omega arith))

option_name-Leaves :
    (again : ℕ → Action ℕ) (block : Bytes) (len offset : ℕ) (o : Option Bytes) (s : Session)
    → ((k : ℕ) (t : Session) → offset + 2 < k → Leaves (suc (length t.incoming)) (again k t))
    → Leaves (suc (length s.incoming)) (option_name again block len offset o s)
unfolding option_name
option_name-Leaves again block len offset none s h = tt
option_name-Leaves again block len offset (some []) s h = omega arith
option_name-Leaves again block len offset (some (c ∷ name)) s h =
    let valoffset = offset + length (c ∷ name) + 1 in
    let n = suc (length s.incoming) in
    Leaves-bool n (ltb valoffset (2 ^ 31)) fault _ tt λ _.
      Leaves-bool n (ltb valoffset len) (done offset s) _ (omega arith) λ _.
        option_value-Leaves again (c ∷ name) valoffset (until_zero (drop valoffset block)) s
          λ k t l. h k t (omega arith)

-- The scan ends: each round takes a name, a value and two zeros.
scan_options-Leaves :
    (fuel : ℕ) (block : Bytes) (len offset : ℕ) (s : Session)
    → 0 < fuel
    → len < offset + fuel
    → Leaves (suc (length s.incoming)) (scan_options fuel block len offset s)
unfolding scan_options
scan_options-Leaves zero block len offset s z h = absurd (omega arith)
scan_options-Leaves (suc fuel) block len offset s z h =
    let n = suc (length s.incoming) in
    Leaves-bool n (ltb offset len) (done offset s) _ (omega arith) λ e.
      let below : offset < len = ltb→lt offset len e in
      option_name-Leaves (scan_options fuel block len) block len offset
        (until_zero (drop offset block)) s
        λ k t l. scan_options-Leaves fuel block len k t (omega arith) (omega arith)

or_fault-Leaves {ℓ κ} :
    {A : Type ℓ} {B : Type κ} (n : ℕ) (o : Option A) (f : A → Action B) (s : Session)
    → ((a : A) → Leaves n (f a s))
    → Leaves n (continue (or_fault o s) f)
or_fault-Leaves n none f s h = tt
or_fault-Leaves n (some a) f s h = h a

-- An action that gives no input back.
abbrev pub Reads {ℓ} : {A : Type ℓ} → Action A → Type 0
Reads f = (s : Session) → Leaves (suc (length s.incoming)) (f s)

pub Reads-bind {ℓ κ} :
    {A : Type ℓ} {B : Type κ} (f : Action A) (g : A → Action B)
    → Reads f
    → ((a : A) → Reads (g a))
    → Reads (f >>= g)
Reads-bind f g hf hg s =
    let n = suc (length s.incoming) in
    Leaves-bind n n (f s) g (hf s)
      λ a t l. Leaves-mono (suc (length t.incoming)) n (g a t) l (hg a t)

Reads-if {ℓ} :
    {A : Type ℓ} (b : Bool) (x y : Action A) → Reads x → Reads y → Reads (if b then x else y)
Reads-if b x y hx hy s = Leaves-if (suc (length s.incoming)) b x y s (hx s) (hy s)

pub send-Reads : (message : Sending) → Reads (send message)
unfolding send
send-Reads message s =
    or_fault-Leaves (suc (length s.incoming)) (message s.write_msg) _ s λ a. omega arith

receive-Reads : (k : ℕ) → Reads (receive k)
receive-Reads k s =
    let n = suc (length s.incoming) in
    Leaves-mono (n - k) n (receive k s) (omega arith) (receive-Leaves k s)

proto_of_packet-Reads : Reads proto_of_packet
unfolding proto_of_packet
proto_of_packet-Reads s =
    let n = suc (length s.incoming) in
    or_fault-Leaves n (read 0 4 s.read_msg.block) _ s λ word.
      or_fault-Leaves n (write 0 (encode 4 (decode_be word 0)) s.read_msg.block) _ s
        λ block. omega arith

accept-Reads :
    (m : Allocator) (proto : ℕ) (block : Bytes) (len : ℕ) → Reads (accept m proto block len)
unfolding accept
accept-Reads m proto block len =
    Reads-bind (scan_options (suc len) block len 4) _
      (λ s. scan_options-Leaves (suc len) block len 4 s (omega arith) (omega arith))
      λ offset.
        Reads-if (offset == (len + 2 ^ 32 - 1) % 2 ^ 32) _ (pure false)
          (Reads-bind (modify (λ s. record s { proto_version = proto })) _ (λ s. omega arith)
            λ _.
              Reads-bind (send (send_auth_request m)) (λ x. pure true)
                (send-Reads (send_auth_request m)) λ _ s. omega arith)
          λ s. omega arith

startup_packet-Reads :
    (m : Allocator) (ssl_done : Bool) (again : Action Bool)
    → Reads again
    → Reads (startup_packet m ssl_done again)
unfolding startup_packet
startup_packet-Reads m ssl_done again h =
    let refused : Reads (pure false) = λ s. omega arith in
    Reads-bind (receive 4) _ (receive-Reads 4) λ word.
      let len = (decode_be word 0 + 2 ^ 32 - 4) % 2 ^ 32 in
      Reads-bind (receive_into m len) _ (receive_into-Leaves m len) λ _.
        Reads-bind proto_of_packet _ proto_of_packet-Reads λ packet.
          let proto = packet.0 in
          Reads-if (proto == cancel_request_code) (pure false) _ refused (
            Reads-if (proto == negotiate_ssl_code && not ssl_done) _ _
              (Reads-bind (modify (λ s. record s { outgoing = s.outgoing ++ b'N' ∷ [] }))
                (λ _. again) (λ s. omega arith) (λ _. h))
              (Reads-if (is_unsupported proto) (pure false) _ refused (
                Reads-if (ltb (pg_protocol_major proto) 3) (pure false)
                  (accept m proto packet.1 len) refused (accept-Reads m proto packet.1 len))))

process_startup_packet-Reads :
    (m : Allocator) (ssl_done : Bool) → Reads (process_startup_packet m ssl_done)
unfolding process_startup_packet
process_startup_packet-Reads m true = startup_packet-Reads m true (pure false) λ s. omega arith
process_startup_packet-Reads m false =
    startup_packet-Reads m false (startup_packet m true (pure false))
      (startup_packet-Reads m true (pure false) λ s. omega arith)

send_then-Leaves {ℓ} :
    {A : Type ℓ} (n : ℕ) (message : Sending) (rest : Action A) (s : Session)
    → length s.incoming < n
    → ((t : Session) → length t.incoming < n → Leaves n (rest t))
    → Leaves n ((send message >> rest) s)
send_then-Leaves n message rest s h k =
    Leaves-bind n n (send message s) (λ _. rest)
      (Leaves-mono (suc (length s.incoming)) n (send message s) h (send-Reads message s))
      (λ _ t l. k t l)

pub converse-Leaves :
    (m : Allocator) (query : Bytes → Action (Unit {0})) (fuel : ℕ)
    → ((sql : Bytes) → Reads (query sql))
    → (s : Session) → length s.incoming < fuel
    → Leaves (suc (length s.incoming)) (converse m query fuel s)
unfolding converse
converse-Leaves m query fuel q s h =
    let n = suc (length s.incoming) in
    Leaves-bind n n (process_startup_packet m false s) _ (process_startup_packet-Reads m false s)
      λ started t l.
        Leaves-if n started _ (pure tt) t
          (send_then-Leaves n (send_parameter_status m t.guc_options) _ t l λ t₁ l₁.
            send_then-Leaves n (send_backend_key_data m) _ t₁ l₁ λ t₂ l₂.
              send_then-Leaves n (send_read_for_query m b'I') _ t₂ l₂ λ t₃ l₃.
                Leaves-mono (suc (length t₃.incoming)) n (main_loop m query fuel t₃) l₃
                  (main_loop-Leaves m query q fuel t₃ (omega arith)))
          l
