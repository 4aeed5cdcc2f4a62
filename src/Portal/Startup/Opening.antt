-- ===== src/Portal/Startup/Opening.antt =====
-- The whole of a packet of version 3.0, from the socket to the answer.
use dbms.Prelude.{
  ℕ, zero, suc, ◌+◌, ◌-◌, ◌%◌, ◌^◌, ◌≤◌, ◌<◌, ◌≡◌, refl, subst, sym, ap, ◌∙◌, some, List, [], ◌∷◌,
  ◌++◌, Bool, true, false, Bytes, length, take, drop, length-append, take-append, drop-append, ltb,
  ◌==◌, ==_iff, codes, arith,
}
use mathlib.Core.List.{append_assoc}
use dbms.Common.Memory.{Allocator, read, write}
use dbms.Common.Memory.Writes.{take-write, write-total}
use dbms.Common.Memory.Integers.{encode, length-encode, be32, decode_be-be32}
use dbms.Common.Message.{MessageBuffer, re_alloc, set_size}
use dbms.Common.Message.Bounds.{re_alloc-room}
use dbms.Portal.Messages.{send_auth_request}
use dbms.Portal.Messages.Sent.{send_parts-Sends}
use dbms.Portal.Session.{
  Session, Outcome, done, Action, pure, continue, or_fault, receive, receive_into, send,
}
use dbms.Portal.Startup.{
  pg_protocol, accept, proto_of_packet, startup_packet, process_startup_packet, is_unsupported,
}
use dbms.Portal.Startup.Options.{
  AreTexts, pairs, length-pairs, set_options, scan_options-pairs, last_value, set_options-IsOpened,
}

receive-exact :
    (k : ℕ) (bytes rest : Bytes) (s : Session)
    → length bytes ≡ k
    → s.incoming ≡ bytes ++ rest
    → receive k s ≡ done bytes (record s { incoming = rest })
unfolding receive
receive-exact k bytes rest s l h =
    let enough : ltb (length s.incoming) k ≡ false =
      ground (arith, ap length h, length-append bytes rest) in
    let taken : take k s.incoming ≡ bytes = rw (h, ← l) (take-append bytes rest) in
    let left : drop k s.incoming ≡ rest = rw (h, ← l) (drop-append bytes rest) in
    rw (receive, enough) (rw taken (rw left refl))

take-drop : (n : ℕ) (b : Bytes) → take n b ++ drop n b ≡ b
take-drop zero b = refl
take-drop (suc n) [] = refl
take-drop (suc n) (x ∷ b) = ap (λ l. x ∷ l) (take-drop n b)

-- the session when `bytes` have been read into `read_msg_`
abbrev after_read : Bytes → Bytes → ℕ → ℕ → Session → Session
after_read rest block size buffer_length s = record s {
  incoming = rest;
  read_msg = record { block = block; data_length = size; buffer_length = buffer_length };
}

receive_into-exact :
    (m : Allocator) (k : ℕ) (bytes rest : Bytes) (s : Session)
    → length bytes ≡ k
    → s.incoming ≡ bytes ++ rest
    → s.read_msg.buffer_length ≤ length s.read_msg.block
    → (x : Bytes) × (receive_into m k s
        ≡ done tt (after_read rest (bytes ++ x) k (re_alloc m k s.read_msg).buffer_length s))
unfolding receive_into set_size
receive_into-exact m k bytes rest s l h room =
    let b = re_alloc m k s.read_msg in
    let fits = (re_alloc-room m k s.read_msg room).0 in
    let s₁ = record s { read_msg = set_size k b } in
    let (c, w) = write-total 0 bytes b.block (omega (arith, l, fits)) in
    let n : 0 + length bytes ≡ length bytes = omega arith in
    let head : take (length bytes) c ≡ bytes = rw n at (take-write 0 bytes b.block w) in
    let whole : bytes ++ drop (length bytes) c ≡ c =
      ap (λ t. t ++ drop (length bytes) c) (sym head) ∙ take-drop (length bytes) c in
    (drop (length bytes) c, rw (receive-exact k bytes rest s₁ l h, continue) (rw w (rw whole refl)))

read-word : (v : ℕ) (y : Bytes) → read 0 4 (be32 v ++ y) ≡ some (be32 v)
unfolding read be32
read-word v y = ground arith

write-word : (v : ℕ) (y : Bytes) → write 0 (encode 4 v) (be32 v ++ y) ≡ some (encode 4 v ++ y)
unfolding write encode be32
write-word v y = ground arith

proto_of_packet-exact :
    (v : ℕ) (y : Bytes) (s : Session)
    → v < 2 ^ 32
    → s.read_msg.block ≡ be32 v ++ y
    → proto_of_packet s
      ≡ done
          (v, encode 4 v ++ y)
          (record s { read_msg = record s.read_msg { block = encode 4 v ++ y } })
unfolding proto_of_packet
proto_of_packet-exact v y s h e =
    let word : read 0 4 s.read_msg.block ≡ some (be32 v) = rw e (read-word v y) in
    let block : write 0 (encode 4 v) s.read_msg.block ≡ some (encode 4 v ++ y) =
      rw e (write-word v y) in
    rw (word, or_fault) (rw (decode_be-be32 v h) (rw block refl))

send-exact :
    (m : Allocator) (s : Session)
    → 9 ≤ length s.write_msg.block
    → (c : MessageBuffer) × (send (send_auth_request m) s
        ≡ done tt
            (record s { write_msg = c; outgoing = s.outgoing ++ (b'R' ∷ (be32 8 ++ be32 0)) }))
unfolding send send_auth_request be32
send-exact m s h =
    let (c, e, l) =
      send_parts-Sends m ((b'R' ∷ []) ∷ be32 8 ∷ be32 0 ∷ []) s.write_msg (omega arith) in
    (c, rw (e, or_fault) refl)

-- the bytes of a packet behind its length
abbrev pub packet : List (Bytes × Bytes) → Bytes
packet options = be32 (pg_protocol 3 0) ++ (pairs options ++ 0 ∷ [])

-- how the session is answered
abbrev pub authenticated : Bytes
authenticated = b'R' ∷ (be32 8 ++ be32 0)

-- The answer of the function, and the session with the options.
abbrev pub Opens : Outcome Bool → Session → List (Bytes × Bytes) → Bytes → Type 0
Opens o s options rest =
    (t : Session) × (o ≡ done true t)
    × (t.incoming ≡ rest)
    × (t.outgoing ≡ s.outgoing ++ authenticated)
    × (t.proto_version ≡ pg_protocol 3 0)
    × (t.guc_options ≡ s.guc_options ++ options)
    × (t.database_name ≡ last_value (codes "database") s.database_name options)
    × (t.user_name ≡ last_value (codes "user") s.user_name options)

accept-Opens :
    (m : Allocator) (s : Session) (options : List (Bytes × Bytes)) (block x : Bytes) (len : ℕ)
    → AreTexts options
    → len < 2 ^ 31
    → 4 + length (pairs options) + 1 ≡ len
    → drop 4 block ≡ pairs options ++ 0 ∷ x
    → length options < suc len
    → 9 ≤ length s.write_msg.block
    → Opens (accept m (pg_protocol 3 0) block len s) s options s.incoming
unfolding accept
accept-Opens m s options block x len t w e d f room =
    let s₁ = set_options options s in
    let o = set_options-IsOpened options s in
    let s₂ = record s₁ { proto_version = pg_protocol 3 0 } in
    let room₁ : 9 ≤ length s₂.write_msg.block = rw (o.same_write_msg) room in
    let (c, sent) = send-exact m s₂ room₁ in
    let last : ((4 + length (pairs options)) == (len + 2 ^ 32 - 1) % 2 ^ 32) ≡ true =
      (==_iff _ _).1 (omega (arith, e, w)) in
    (
      record s₂ { write_msg = c; outgoing = s₂.outgoing ++ authenticated },
      rw (scan_options-pairs (suc len) block len 4 s options x f t w e d, continue)
          (rw last (rw (sent, continue) refl)),
      o.same_incoming,
      ap (λ b. b ++ authenticated) o.same_outgoing,
      refl,
      o.all_options,
      o.database,
      o.user,
    )

length-be32 : (v : ℕ) → length (be32 v) ≡ 4
unfolding be32
length-be32 v = refl

options-le-pairs : (options : List (Bytes × Bytes)) → length options ≤ length (pairs options)
options-le-pairs [] = omega arith
options-le-pairs ((name, value) ∷ options) =
    omega (arith, length-pairs name value options, options-le-pairs options)

length-packet :
    (options : List (Bytes × Bytes)) → 4 + length (pairs options) + 1 ≡ length (packet options)
length-packet options = omega (
  arith,
  length-append (be32 (pg_protocol 3 0)) (pairs options ++ 0 ∷ []),
  length-append (pairs options) (0 ∷ []),
  length-be32 (pg_protocol 3 0),
)

-- A packet of version 3.0 that has been read is scanned.
startup-accepts :
    (m : Allocator) (n : ℕ) (again : Action Bool) (block : Bytes) (s s₁ s₂ s₃ : Session)
    → n < 2 ^ 31
    → receive 4 s ≡ done (be32 (4 + n)) s₁
    → receive_into m n s₁ ≡ done tt s₂
    → proto_of_packet s₂ ≡ done (pg_protocol 3 0, block) s₃
    → startup_packet m false again s ≡ accept m (pg_protocol 3 0) block n s₃
unfolding startup_packet is_unsupported
startup-accepts m n again block s s₁ s₂ s₃ h e₁ e₂ e₃ =
    let len : (4 + n + 2 ^ 32 - 4) % 2 ^ 32 ≡ n = omega arith in
    rw (e₁, continue)
      (rw (decode_be-be32 (4 + n) (omega arith))
        (rw len (rw (e₂, continue) (rw (e₃, continue) refl))))

-- A client that sends a packet of version 3.0 with its names and values, of less than 2 ^ 31 bytes,
-- is let in: the answer is that it is authenticated, the session has all names and values in their
-- order, the database and the user last named, and the rest of the input is left. Names are not
-- empty, no string holds a zero, and the write buffer has room for the answer.
pub startup-Opens :
    (m : Allocator) (s : Session) (options : List (Bytes × Bytes)) (rest : Bytes)
    → AreTexts options
    → length (packet options) < 2 ^ 31
    → s.incoming ≡ be32 (4 + length (packet options)) ++ (packet options ++ rest)
    → s.read_msg.buffer_length ≤ length s.read_msg.block
    → 9 ≤ length s.write_msg.block
    → Opens (process_startup_packet m false s) s options rest
unfolding process_startup_packet
startup-Opens m s options rest t w h room out =
    let n = length (packet options) in
    let v = pg_protocol 3 0 in
    let s₁ = record s { incoming = packet options ++ rest } in
    let (x, e₂) = receive_into-exact m n (packet options) rest s₁ refl refl room in
    let b = (re_alloc m n s.read_msg).buffer_length in
    let s₂ = after_read rest (packet options ++ x) n b s₁ in
    let y = (pairs options ++ 0 ∷ []) ++ x in
    let e₃ =
      proto_of_packet-exact v y s₂ (omega arith)
        (append_assoc (be32 v) (pairs options ++ 0 ∷ []) x) in
    let s₃ = record s₂ { read_msg = record s₂.read_msg { block = encode 4 v ++ y } } in
    let at_pairs : drop 4 (encode 4 v ++ y) ≡ pairs options ++ 0 ∷ x =
      subst (λ k. drop k (encode 4 v ++ y) ≡ y) (length-encode 4 v) (drop-append (encode 4 v) y)
      ∙ append_assoc (pairs options) (0 ∷ []) x in
    let l = length-packet options in
    let (u, a, i, o, p, g, d, w') =
      accept-Opens m s₃ options (encode 4 v ++ y) x n t w l at_pairs
        (omega (arith, options-le-pairs options, l)) out in
    (
      u,
      startup-accepts m n (startup_packet m true (pure false)) (encode 4 v ++ y) s s₁ s₂ s₃ w
            (receive-exact 4 (be32 (4 + n)) (packet options ++ rest) s (length-be32 (4 + n)) h) e₂
            e₃
          ∙ a,
      i,
      o,
      p,
      g,
      d,
      w',
    )
