-- ===== src/Tests/Opening.antt =====
-- Sessions that are opened.
use dbms.Prelude.{◌+◌, refl, arith, List, [], ◌∷◌, ◌++◌, false, Bytes, codes, length}
use dbms.Common.Memory.Integers.{be32}
use dbms.Portal.Session.{Session, Action, pure}
use dbms.Portal.Session.Query.{process_simple_query}
use dbms.Common.Define.{State}
use dbms.Portal.Startup.{process_startup_packet, thread}
use dbms.Portal.Startup.Opening.{packet, Opens, startup-Opens}
use dbms.Portal.Startup.Threads.{Ends, thread-Ends}
use dbms.Portal.Startup.Versions.{Ensures, Speaks, process_startup_packet-Speaks}
use dbms.Tests.{zeros}
use dbms.Tests.Sessions.{session}

abbrev options : List (Bytes × Bytes)
options = (codes "user", codes "ada") ∷ (codes "database", codes "db") ∷ []

-- a packet, and the first byte of a command
abbrev fresh : Session
fresh = record session {
  incoming = be32 (4 + length (packet options)) ++ (packet options ++ b'X' ∷ []);
}

startup-Opens_example : Opens (process_startup_packet zeros false fresh) fresh options (b'X' ∷ [])
unfolding be32
startup-Opens_example =
    startup-Opens zeros fresh options (b'X' ∷ []) (omega arith) (omega arith) refl (omega arith)
      (omega arith)

-- a stage that succeeds, and one that finds no relation; the realizer is its message
abbrev succeed : Bytes → Action (State × Bytes)
succeed r = pure (State.ok, r)

abbrev not_found : Bytes → Action (State × Bytes)
not_found r = pure (State.relation_not_found, codes "no table")

abbrev query : Bytes → Action (Unit {0})
query sql = process_simple_query zeros (λ r. r) (succeed ∷ not_found ∷ succeed ∷ []) sql

-- a packet, and a query
abbrev asking : Session
asking = record session {
  incoming =
      be32 (4 + length (packet options))
      ++ (packet options ++ b'Q' ∷ 0 ∷ 0 ∷ 0 ∷ 6 ∷ b'a' ∷ 0 ∷ []);
}

thread-Ends_example : Ends (thread zeros query 50 asking)
unfolding be32
thread-Ends_example =
    thread-Ends zeros (λ r. r) (succeed ∷ not_found ∷ succeed ∷ []) (λ sql. sql)
      ((λ r s. omega arith), ((λ r s. omega arith), ((λ r s. omega arith), tt))) 50 asking
      (omega arith)

process_startup_packet-Speaks_example : Ensures Speaks (process_startup_packet zeros false fresh)
process_startup_packet-Speaks_example = process_startup_packet-Speaks zeros false fresh
