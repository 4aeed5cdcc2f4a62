-- ===== src/Portal/Startup/Threads.antt =====
-- `Thread` as a whole, with `ProcessSimpleQuery` as the handler of queries.
use dbms.Prelude.{Every, ℕ, suc, ◌<◌, List, [], ◌∷◌, Bool, Bytes, length, arith, if◌then◌else◌}
use dbms.Common.Define.{State}
use dbms.Common.Memory.{Allocator}
use dbms.Portal.Messages.{send_command_complete, send_error_response, send_read_for_query}
use dbms.Portal.Session.{Session, Outcome, done, throws, fault, out_of_fuel, Action, send}
use dbms.Portal.Session.Loop.{Leaves, Leaves-mono, Leaves-bind, Leaves-either}
use dbms.Portal.Session.Query.{is_ok, run_stages, process_simple_query}
use dbms.Portal.Startup.{converse, caught, thread}
use dbms.Portal.Startup.Ends.{Reads, Reads-bind, send-Reads, converse-Leaves}

module _ {R : Type 0} (m : Allocator) (message : R → Bytes) where
  run_stages-Reads :
      (stages : List (R → Action (State × R)))
      → Every (λ stage. (r : R) → Reads (stage r)) stages
      → (r : R) → Reads (run_stages m message stages r)
  unfolding run_stages
  run_stages-Reads [] h r s = omega arith
  run_stages-Reads (stage ∷ stages) (h, hs) r s =
      let n = suc (length s.incoming) in
      Leaves-bind n n (stage r s) _ (h r s) λ p t l.
        Leaves-either n (is_ok p.0) _ (done p t)
          (Leaves-mono (suc (length t.incoming)) n (run_stages m message stages p.1 t) l
            (run_stages-Reads stages hs p.1 t))
          l

  process_simple_query-Reads :
      (stages : List (R → Action (State × R)))
      → Every (λ stage. (r : R) → Reads (stage r)) stages
      → (r : R) → Reads (process_simple_query m message stages r)
  unfolding process_simple_query
  process_simple_query-Reads stages h r =
      Reads-bind (run_stages m message stages r) _ (run_stages-Reads stages h r) λ p.
        let reply =
          if is_ok p.0
          then send_command_complete m (message p.1)
          else send_error_response m (message p.1) in
        Reads-bind (send reply) (λ _. send (send_read_for_query m b'I')) (send-Reads reply)
          λ _. send-Reads (send_read_for_query m b'I')

-- It returns or runs into a fault.
abbrev pub Ends : Outcome Bool → Type 0
Ends (done left s) = Unit
Ends (throws s) = ⊥
Ends fault = Unit
Ends out_of_fuel = ⊥

caught-Ends : (n : ℕ) (o : Outcome (Unit {0})) → Leaves n o → Ends (caught o)
caught-Ends n (done u s) l = tt
caught-Ends n (throws s) l = tt
caught-Ends n fault l = tt
caught-Ends n out_of_fuel l = l

-- Where every stage of the realizer ends, by a return, an exception or a fault, and leaves no more
-- input than it was given, `Thread`, which handles each query by `ProcessSimpleQuery`, ends for
-- every client, whatever it sends, with one round of the main loop more than bytes of input: it
-- returns or runs into a fault, which counts as an end.
pub thread-Ends :
    {R : Type 0} (m : Allocator) (message : R → Bytes) (stages : List (R → Action (State × R)))
    (realizer : Bytes → R)
    → Every (λ stage. (r : R) → Reads (stage r)) stages
    → (fuel : ℕ) (s : Session) → length s.incoming < fuel
    → Ends (thread m (λ sql. process_simple_query m message stages (realizer sql)) fuel s)
unfolding thread
thread-Ends m message stages realizer h fuel s l =
    let query = λ (sql : Bytes). process_simple_query m message stages (realizer sql) in
    caught-Ends (suc (length s.incoming)) (converse m query fuel s) (
      converse-Leaves m query fuel
        (λ sql. process_simple_query-Reads m message stages h (realizer sql)) s l)
