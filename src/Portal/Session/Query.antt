-- ===== src/Portal/Session/Query.antt =====
-- `Session::ProcessSimpleQuery`: the stages of the realizer, and the answer.
use dbms.Prelude.{
  ◌+◌, ◌≤◌, ◌≡◌, refl, ap, ◌∙◌, List, [], ◌∷◌, ◌++◌, Bool, true, false, Bytes, length,
  if◌then◌else◌, arith, Bool-cases, inl, inr,
}
use mathlib.Core.List.{append_assoc}
use dbms.Common.Memory.{Allocator}
use dbms.Common.Memory.Integers.{be32}
use dbms.Common.Define.{State}
use dbms.Common.Message.{MessageBuffer}
use dbms.Portal.Backend.Framing.{frame}
use dbms.Portal.Messages.{
  Sending, c_string, send_command_complete, send_error_response, send_read_for_query,
}
use dbms.Portal.Messages.Sent.{
  Sends, send_command_complete-Sends, send_error_response-Sends, send_read_for_query-Sends,
}
use dbms.Portal.Session.{Session, done, continue, Action, ◌>>=◌, ◌>>◌, or_fault, send}

-- `state == kStateOK`
unfoldable pub is_ok : State → Bool
is_ok State.ok = true
is_ok _ = false

-- `R` is the state of the realizer; `message` is its `Message()`.
module _ {R : Type 0} (m : Allocator) (message : R → Bytes) where
  -- Each stage runs only if those before it returned kStateOK.
  unfoldable pub run_stages : List (R → Action (State × R)) → R → Action (State × R)
  run_stages [] r s = done (State.ok, r) s
  run_stages (stage ∷ stages) r s =
      continue (stage r s)
        λ p s'. let rest = run_stages stages p.1 s' in if is_ok p.0 then rest else done p s'

  unfoldable pub process_simple_query : List (R → Action (State × R)) → R → Action (Unit {0})
  unfolding run_stages is_ok
  process_simple_query stages r = do
    p ← run_stages stages r
    send (
        if is_ok p.0
        then send_command_complete m (message p.1)
        else send_error_response m (message p.1))
    send (send_read_for_query m b'I')

  -- what the client is to receive at the end of a query
  abbrev pub answer : State → R → Bytes
  answer st r =
      (if is_ok st
        then frame b'C' (c_string (message r))
        else frame b'E' (b'M' ∷ (c_string (message r) ++ 0 ∷ [])))
      ++ (b'Z' ∷ (be32 5 ++ b'I' ∷ []))

-- what a message that can be sent does to the session
send-Sends :
    (message : Sending) (bytes : Bytes) (s : Session)
    → Sends message s.write_msg bytes
    → (s' : Session) × (send message s ≡ done tt s')
      × (s'.outgoing ≡ s.outgoing ++ bytes)
      × (length s'.write_msg.block ≡ length s.write_msg.block)
unfolding send
send-Sends message bytes s (c, e, l) =
    (record s { write_msg = c; outgoing = s.outgoing ++ bytes }, rw (e, or_fault) refl, refl, l)

module _ {R : Type 0} (m : Allocator) (message : R → Bytes) where
  answer-Sends :
      (st : State) (r : R) (b : MessageBuffer)
      → 7 + length (c_string (message r)) ≤ length b.block
      → Sends
          (if is_ok st
            then send_command_complete m (message r)
            else send_error_response m (message r))
          b
          (if is_ok st
            then frame b'C' (c_string (message r))
            else frame b'E' (b'M' ∷ (c_string (message r) ++ 0 ∷ [])))
  answer-Sends st r b h = elim (Bool-cases (is_ok st)) [
    | inl e ↦ rw e (send_command_complete-Sends m (message r) b (omega arith))
    | inr e ↦ rw e (send_error_response-Sends m (message r) b h)
  ]

  -- Whatever stage ends the processing of a simple query and with whatever state, the client is
  -- sent one answer, behind what the stages sent: a completion if the state is kStateOK and an
  -- error response otherwise, with the message of the realizer, and then that the session is ready
  -- for the next query. The message has to fit the write buffer.
  pub query_answered :
      (stages : List (R → Action (State × R))) (r r' : R) (st : State) (s s' : Session)
      → run_stages m message stages r s ≡ done (st, r') s'
      → 7 + length (c_string (message r')) ≤ length s'.write_msg.block
      → (s'' : Session) × (process_simple_query m message stages r s ≡ done tt s'')
        × (s''.outgoing ≡ s'.outgoing ++ answer m message st r')
  unfolding process_simple_query
  query_answered stages r r' st s s' e h =
      let message_answer : Bytes =
        if is_ok st
        then frame b'C' (c_string (message r'))
        else frame b'E' (b'M' ∷ (c_string (message r') ++ 0 ∷ [])) in
      let (t, f, o, l) =
        send-Sends
          (if is_ok st
            then send_command_complete m (message r')
            else send_error_response m (message r'))
          message_answer s' (answer-Sends st r' s'.write_msg h) in
      let (u, g, p, _) =
        send-Sends (send_read_for_query m b'I') (b'Z' ∷ (be32 5 ++ b'I' ∷ [])) t
          (send_read_for_query-Sends m b'I' t.write_msg (omega arith)) in
      (
        u,
        rw (e, ◌>>=◌) (rw (f, ◌>>=◌) g),
        p
            ∙ ap (λ x. x ++ (b'Z' ∷ (be32 5 ++ b'I' ∷ []))) o
            ∙ append_assoc s'.outgoing message_answer (b'Z' ∷ (be32 5 ++ b'I' ∷ [])),
      )
