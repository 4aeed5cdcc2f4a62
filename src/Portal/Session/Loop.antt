-- ===== src/Portal/Session/Loop.antt =====
-- `Session::MainLoop` ends.
use dbms.Prelude.{
  ℕ, zero, suc, ◌+◌, ◌-◌, ◌^◌, ◌≤◌, ◌<◌, Bool, true, false, Bytes, not, ◌||◌, Option, none, some,
  length, length-drop, arith, ltb, ◌==◌, if◌then◌else◌,
}
use dbms.Common.Memory.{Allocator, write}
use dbms.Common.Define.{State}
use dbms.Common.Memory.Integers.{decode_be}
use dbms.Common.Message.{contents, set_size, re_alloc}
use dbms.Portal.Session.{
  Session, Outcome, done, throws, fault, out_of_fuel, continue, Action, pure, ◌>>=◌, ◌>>◌, gets,
  modify, or_fault, receive, receive_into, read_body, recv_command, main_loop,
}

-- The action does not run out of fuel, and leaves fewer than `n` bytes of input where it returns.
abbrev pub Leaves {ℓ} : {A : Type ℓ} → ℕ → Outcome A → Type 0
Leaves n (done a s) = length s.incoming < n
Leaves n (throws s) = Unit
Leaves n fault = Unit
Leaves n out_of_fuel = ⊥

pub Leaves-mono {ℓ} : {A : Type ℓ} (k n : ℕ) (o : Outcome A) → k ≤ n → Leaves k o → Leaves n o
Leaves-mono k n (done a s) h l = omega arith
Leaves-mono k n (throws s) h l = tt
Leaves-mono k n fault h l = tt
Leaves-mono k n out_of_fuel h l = l

pub Leaves-bind {ℓ κ} :
    {A : Type ℓ} {B : Type κ} (k n : ℕ) (o : Outcome A) (f : A → Action B)
    → Leaves k o
    → ((a : A) (t : Session) → length t.incoming < k → Leaves n (f a t))
    → Leaves n (continue o f)
Leaves-bind k n (done a s) f l h = h a s l
Leaves-bind k n (throws s) f l h = tt
Leaves-bind k n fault f l h = tt
Leaves-bind k n out_of_fuel f l h = absurd l

pub Leaves-if {ℓ} :
    {A : Type ℓ} (n : ℕ) (b : Bool) (x y : Action A) (s : Session)
    → Leaves n (x s)
    → Leaves n (y s)
    → Leaves n ((if b then x else y) s)
Leaves-if n true x y s hx hy = hx
Leaves-if n false x y s hx hy = hy

pub Leaves-either {ℓ} :
    {A : Type ℓ} (n : ℕ) (b : Bool) (x y : Outcome A)
    → Leaves n x
    → Leaves n y
    → Leaves n (if b then x else y)
Leaves-either n true x y hx hy = hx
Leaves-either n false x y hx hy = hy

pub receive-Leaves : (k : ℕ) (s : Session) → Leaves (suc (length s.incoming) - k) (receive k s)
unfolding receive
receive-Leaves k s = ground (arith, length-drop k s.incoming)

pub receive_into-Leaves :
    (m : Allocator) (k : ℕ) (s : Session) → Leaves (suc (length s.incoming)) (receive_into m k s)
unfolding receive_into
receive_into-Leaves m k s =
    let s' = record s { read_msg = set_size k (re_alloc m k s.read_msg) } in
    let n = suc (length s.incoming) in
    Leaves-bind n n (receive k s') _
      (Leaves-mono (n - k) n (receive k s') (omega arith) (receive-Leaves k s'))
      λ bytes t h. stored bytes t h (write 0 bytes t.read_msg.block)
  where
    stored :
        (bytes : Bytes) (t : Session)
        → length t.incoming < suc (length s.incoming)
        → (o : Option Bytes)
        → Leaves (suc (length s.incoming)) (
            continue
              (or_fault o t)
              (λ block. modify (λ s. record s { read_msg = record s.read_msg { block = block } })))
    stored bytes t h none = tt
    stored bytes t h (some block) = h

read_body-Leaves : (m : Allocator) (s : Session) → Leaves (suc (length s.incoming)) (read_body m s)
unfolding read_body
read_body-Leaves m s =
    let n = suc (length s.incoming) in
    Leaves-bind n n (receive 4 s) _
      (Leaves-mono (n - 4) n (receive 4 s) (omega arith) (receive-Leaves 4 s))
      λ word t h.
        let len = decode_be word 0 in
        Leaves-if n (ltb len 4 || not (ltb len (2 ^ 31 + 4))) (pure false) _ t h (
          Leaves-if n (ltb len (2 ^ 31)) (do receive_into m (len - 4); pure true) (λ _. fault) t
            (Leaves-bind (suc (length t.incoming)) n (receive_into m (len - 4) t) (λ _. pure true)
              (receive_into-Leaves m (len - 4) t) (λ _ u k. omega arith))
            tt)

-- A command takes at least one byte of the input.
recv_command-Leaves : (m : Allocator) (s : Session) → Leaves (length s.incoming) (recv_command m s)
unfolding recv_command
recv_command-Leaves m s =
    let n = length s.incoming in
    Leaves-bind n n (receive 1 s) _
      (Leaves-mono (suc n - 1) n (receive 1 s) (omega arith) (receive-Leaves 1 s))
      λ kind t h.
        Leaves-bind n n (read_body m t) _
          (Leaves-mono (suc (length t.incoming)) n (read_body m t) h (read_body-Leaves m t))
          λ ok u k. k

-- one round of the loop, for any continuation
round-Leaves :
    (m : Allocator) (query : Bytes → Action (Unit {0})) (again : Action (Unit {0}))
    → ((sql : Bytes) (s : Session) → Leaves (suc (length s.incoming)) (query sql s))
    → (s : Session)
    → ((t : Session) → length t.incoming < length s.incoming → Leaves (length s.incoming) (again t))
    → Leaves (length s.incoming) (
        (do
          qtype ← recv_command m
          msg ← gets (λ s. contents s.read_msg)
          if qtype == b'Q'
              then query msg
              else if qtype == b'X'
              then modify (λ s. record s { state = State.frontend_terminate; stop = true })
              else pure tt
          again)
          s)
round-Leaves m query again q s h =
    let n = length s.incoming in
    Leaves-bind n n (recv_command m s) _ (recv_command-Leaves m s) λ qtype t k.
      let msg = contents t.read_msg in
      let stop : Action (Unit {0}) =
        modify (λ s. record s { state = State.frontend_terminate; stop = true }) in
      Leaves-bind n n _ (λ _. again)
        (Leaves-if n (qtype == b'Q') (query msg) _ t
          (Leaves-mono (suc (length t.incoming)) n (query msg t) k (q msg t))
          (Leaves-if n (qtype == b'X') stop (pure tt) t k k))
        (λ _ u l. h u l)

-- With more rounds than bytes of input the main loop ends by the flag, an exception or a fault, and
-- leaves no more input than it was given, provided that the handler of queries ends and gives no
-- input back.
pub main_loop-Leaves :
    (m : Allocator) (query : Bytes → Action (Unit {0}))
    → ((sql : Bytes) (s : Session) → Leaves (suc (length s.incoming)) (query sql s))
    → (fuel : ℕ) (s : Session) → length s.incoming < fuel
    → Leaves (suc (length s.incoming)) (main_loop m query fuel s)
unfolding main_loop
main_loop-Leaves m query q zero s h = absurd (omega arith)
main_loop-Leaves m query q (suc fuel) s h =
    let n = length s.incoming in
    Leaves-either (suc n) s.stop (done tt s) _ (omega arith) (
      Leaves-mono n (suc n) _ (omega arith) (
        round-Leaves m query (main_loop m query fuel) q s λ t k.
          Leaves-mono (suc (length t.incoming)) n (main_loop m query fuel t) k
            (main_loop-Leaves m query q fuel t (omega arith))))
