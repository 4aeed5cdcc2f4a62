-- ===== src/Portal/Backend/Framing.antt =====
-- What the client receives.
use dbms.Prelude.{
  ℕ, ◌+◌, ◌-◌, ◌≤◌, ◌<◌, ◌≡◌, refl, ap, sym, subst, ◌∙◌, inl, inr, none, some, List, [], ◌∷◌, ◌++◌,
  Bytes, arith, length, take, get_elem?, ==_refl, length-append, Option-cases,
}
use dbms.Common.Memory.{Allocator, read, write, ◌>>=◌}
use dbms.Common.Memory.Integers.{be32}
use dbms.Common.Memory.Writes.{
  read-write_self, read-write_ne, read-append, write-total, length-write, write-fits,
}
use dbms.Common.Message.{MessageBuffer, append, set_size, contents}
use dbms.Common.Message.Bounds.{append-some, append-fits}
use dbms.Portal.Backend.{
  backend_msg_begin, append_all, backend_msg_end, assert_id, send_message, concat,
}

-- A message as the protocol wants it: its kind, the length of what follows the kind, its body.
abbrev pub frame : ℕ → Bytes → Bytes
frame id body = id ∷ (be32 (4 + length body) ++ body)

-- The parts lie behind what the buffer held, which is as it was.
pub record Appended (b c : MessageBuffer) (body : Bytes) : Type 0 where
  pub size : length c.block ≡ length b.block
  pub end : c.data_length ≡ b.data_length + length body
  pub body_read : read b.data_length (length body) c.block ≡ some body
  pub kept : (p n : ℕ) → p + n ≤ b.data_length → read p n c.block ≡ read p n b.block

read-nil : (p : ℕ) (b : Bytes) → p ≤ length b → read p 0 b ≡ some []
unfolding read
read-nil p b h = ground arith

pub append_all-Appended :
    (m : Allocator) (parts : List Bytes) (b : MessageBuffer)
    → b.data_length + length (concat parts) ≤ length b.block
    → (c : MessageBuffer) × (append_all m parts b ≡ some c) × Appended b c (concat parts)
unfolding append_all
append_all-Appended m [] b h = (
  b,
  refl,
  record {
    size = refl;
    end = omega arith;
    body_read = read-nil b.data_length b.block (omega arith);
    kept = λ p n k. refl;
  },
)
append_all-Appended m (part ∷ parts) b h =
    let l = length-append part (concat parts) in
    let (c, e) = (append-fits m part b).0 (omega (arith, l, h)) in
    let (w, dl) = append-some m part b e in
    let lc = length-write b.data_length part b.block w in
    let (d, f, v) = append_all-Appended m parts c (omega (arith, l, h, dl, lc)) in
    let part_read : read b.data_length (length part) d.block ≡ some part =
      v.kept b.data_length (length part) (omega (arith, dl))
      ∙ read-write_self b.data_length part b.block w in
    (
      d,
      rw (e, ◌>>=◌) f,
      record {
        size = v.size ∙ lc;
        end = omega (arith, v.end, dl, l);
        body_read =
            subst (λ (n : ℕ). read b.data_length n d.block ≡ some (part ++ concat parts)) (sym l)
              (read-append b.data_length (length part) (length (concat parts)) d.block part_read (
                subst (λ (p : ℕ). read p (length (concat parts)) d.block ≡ some (concat parts)) dl
                  v.body_read));
        kept = λ p n k.
            v.kept p n (omega (arith, dl, k))
            ∙ read-write_ne b.data_length p n part b.block w (inl k);
      },
    )

append_all-none :
    (m : Allocator) (parts : List Bytes) (b : MessageBuffer)
    → b.data_length ≤ length b.block
    → length b.block < b.data_length + length (concat parts)
    → append_all m parts b ≡ none
unfolding append_all
append_all-none m [] b k h = absurd (omega arith)
append_all-none m (part ∷ parts) b k h = elim (Option-cases (append m part b)) [
  | inl e ↦ rw (e, ◌>>=◌) refl
  | inr (c, e) ↦
      let (w, dl) = append-some m part b e in
      let lc = length-write b.data_length part b.block w in
      rw (e, ◌>>=◌)
        (append_all-none m parts c (omega (arith, dl, lc, write-fits b.data_length part b.block w))
          (omega (arith, dl, lc, h, length-append part (concat parts))))
]

-- what the buffer is after `BackendMsgBegin`
begin-some :
    (m : Allocator) (id : ℕ) (b : MessageBuffer)
    → 5 ≤ length b.block
    → (c : MessageBuffer) × (backend_msg_begin m id b ≡ some c)
      × (length c.block ≡ length b.block)
      × (c.data_length ≡ 5)
      × (read 0 1 c.block ≡ some (id ∷ []))
unfolding backend_msg_begin set_size
begin-some m id b h =
    let (c, e) = (append-fits m (id ∷ []) (set_size 0 b)).0 (omega arith) in
    let (w, dl) = append-some m (id ∷ []) (set_size 0 b) e in
    (
      set_size 5 c,
      rw (e, ◌>>=◌) refl,
      length-write 0 (id ∷ []) b.block w,
      refl,
      read-write_self 0 (id ∷ []) b.block w,
    )

read-first : (b : Bytes) (a : ℕ) → read 0 1 b ≡ some (a ∷ []) → get_elem? b 0 ≡ some a
unfolding read
read-first [] a h = ground arith
read-first (x ∷ b) a h = ground arith

pub read-take : (n : ℕ) (b : Bytes) {s : Bytes} → read 0 n b ≡ some s → take n b ≡ s
unfolding read
read-take n b h = ground arith

assert_id-sent :
    (id : ℕ) (b : MessageBuffer) {s : Bytes}
    → read 0 1 b.block ≡ some (id ∷ [])
    → take b.data_length b.block ≡ s
    → assert_id id b ≡ some (b, s)
unfolding assert_id contents
assert_id-sent id b first all = rw (read-first b.block id first, assert_id, ==_refl id, all) refl

-- the block after the length has been written into it
header-written :
    (id d : ℕ) (header body before : Bytes) {block : Bytes}
    → d ≡ 5 + length body
    → length header ≡ 4
    → write 1 header before ≡ some block
    → read 0 1 before ≡ some (id ∷ [])
    → read 5 (length body) before ≡ some body
    → (read 0 1 block ≡ some (id ∷ [])) × (take d block ≡ id ∷ (header ++ body))
header-written id d header body before {block} dl l w first rest =
    let first' : read 0 1 block ≡ some (id ∷ []) =
      read-write_ne 1 0 1 header before w (inl (omega arith)) ∙ first in
    let rest' : read 5 (length body) block ≡ some body =
      read-write_ne 1 5 (length body) header before w (inr (omega arith)) ∙ rest in
    let upto5 : read 0 5 block ≡ some (id ∷ header) =
      read-append 0 1 4 block first' (rw l at (read-write_self 1 header before w)) in
    (
      first',
      rw dl (read-take (5 + length body) block (read-append 0 5 (length body) block upto5 rest')),
    )

-- `BackendMsgEnd` on a buffer that holds a kind, four bytes not yet written, and a body
end-frame :
    (id : ℕ) (body : Bytes) (b : MessageBuffer)
    → b.data_length ≡ 5 + length body
    → b.data_length ≤ length b.block
    → read 0 1 b.block ≡ some (id ∷ [])
    → read 5 (length body) b.block ≡ some body
    → (c : MessageBuffer) × (backend_msg_end id b ≡ some (c, frame id body))
      × (length c.block ≡ length b.block)
unfolding backend_msg_end be32
end-frame id body b dl fits first rest =
    let header = be32 (b.data_length - 1) in
    let (block, w) = write-total 1 header b.block (omega arith) in
    let (first', all) = header-written id b.data_length header body b.block dl refl w first rest in
    let same_length : b.data_length - 1 ≡ 4 + length body = omega arith in
    let sent : take b.data_length block ≡ frame id body =
      all ∙ ap (λ n. id ∷ (be32 n ++ body)) same_length in
    (
      record b { block = block },
      rw (w, ◌>>=◌) (assert_id-sent id (record b { block = block }) first' sent),
      length-write 1 header b.block w,
    )

-- A message of kind `id` whose parts fit the block of the write buffer reaches the socket whole:
-- the kind, the length of the rest in network order, and the parts one after the other; the block
-- keeps its size, so the next message has the same room.
pub send_message-frame :
    (m : Allocator) (id : ℕ) (parts : List Bytes) (b : MessageBuffer)
    → 5 + length (concat parts) ≤ length b.block
    → (c : MessageBuffer) × (send_message m id parts b ≡ some (c, frame id (concat parts)))
      × (length c.block ≡ length b.block)
unfolding send_message
send_message-frame m id parts b h =
    let (c, e, lc, dc, first) = begin-some m id b (omega arith) in
    let (d, f, v) = append_all-Appended m parts c (omega (arith, lc, dc)) in
    let first' : read 0 1 d.block ≡ some (id ∷ []) = v.kept 0 1 (omega (arith, dc)) ∙ first in
    let (r, g, lr) =
      end-frame id (concat parts) d (omega (arith, v.end, dc))
        (omega (arith, v.end, dc, v.size, lc)) first'
        (subst (λ (p : ℕ). read p (length (concat parts)) d.block ≡ some (concat parts)) dc
          v.body_read) in
    (r, rw (e, ◌>>=◌) (rw (f, ◌>>=◌) g), lr ∙ v.size ∙ lc)

-- A message whose parts do not fit the block is written past the end of the block: the buffer does
-- not grow.
pub send_message-overflows :
    (m : Allocator) (id : ℕ) (parts : List Bytes) (b : MessageBuffer)
    → 5 ≤ length b.block
    → length b.block < 5 + length (concat parts)
    → send_message m id parts b ≡ none
unfolding send_message
send_message-overflows m id parts b h k =
    let (c, e, lc, dc, first) = begin-some m id b h in
    let o = append_all-none m parts c (omega (arith, lc, dc)) (omega (arith, lc, dc)) in
    rw (e, ◌>>=◌) (rw (o, ◌>>=◌) refl)
