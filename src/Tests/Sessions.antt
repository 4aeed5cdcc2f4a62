-- ===== src/Tests/Sessions.antt =====
-- Messages to the client, and sessions.
use dbms.Prelude.{
  ◌≡◌, refl, arith, none, some, [], ◌∷◌, ◌++◌, false, Bytes, length, replicate, codes,
}
use dbms.Common.Define.{State}
use dbms.Common.Message.{MessageBuffer}
use dbms.Common.Row.{ColumnDesc}
use dbms.Portal.Backend.{send_message}
use dbms.Portal.Backend.Framing.{frame, send_message-frame, send_message-overflows}
use dbms.Portal.Messages.{c_string, send_row_description, send_error_response}
use dbms.Portal.Messages.Sent.{row_description-overflows, send_error_response-Sends, Sends}
use dbms.Portal.Session.{Session, Action, done, pure, main_loop}
use dbms.Portal.Session.Query.{is_ok, run_stages, process_simple_query, answer, query_answered}
use dbms.Portal.Session.Loop.{Leaves, main_loop-Leaves}
use dbms.Tests.{zeros, buffer}

send_message-frame_example :
    (c : MessageBuffer) × (send_message zeros b'Z' (codes "ab" ∷ codes "c" ∷ []) (buffer 10)
      ≡ some (c, frame b'Z' (codes "abc")))
    × (length c.block ≡ 10)
send_message-frame_example =
    send_message-frame zeros b'Z' (codes "ab" ∷ codes "c" ∷ []) (buffer 10) (omega arith)

send_message-overflows_example :
    send_message zeros b'Z' (codes "ab" ∷ codes "c" ∷ []) (buffer 7) ≡ none
send_message-overflows_example =
    send_message-overflows zeros b'Z' (codes "ab" ∷ codes "c" ∷ []) (buffer 7) (omega arith)
      (omega arith)

abbrev column_desc : ColumnDesc
column_desc = record {
  column_name = codes "c";
  data_type = 20;
  data_type_size = 8;
  relation_id = 0;
  attribute_id = 0;
  item_slot = record { nth_tuple = 0; nth_item = 0 };
}

row_description-overflows_example :
    send_row_description zeros (replicate 27 column_desc) (buffer 512) ≡ none
row_description-overflows_example =
    row_description-overflows zeros (replicate 27 column_desc) (buffer 512) refl (omega arith)
      (omega arith)

send_error_response-Sends_example :
    Sends
      (send_error_response zeros (codes "bad"))
      (buffer 20)
      (frame b'E' (b'M' ∷ (c_string (codes "bad") ++ 0 ∷ [])))
unfolding c_string
send_error_response-Sends_example =
    send_error_response-Sends zeros (codes "bad") (buffer 20) (omega arith)

-- a session with one query to come and the end of the connection
abbrev pub session : Session
session = record {
  incoming = b'Q' ∷ 0 ∷ 0 ∷ 0 ∷ 6 ∷ b'a' ∷ 0 ∷ [];
  outgoing = [];
  read_msg = buffer 8;
  write_msg = buffer 40;
  database_name = codes "db";
  user_name = codes "me";
  cmdline_options = [];
  guc_options = [];
  proto_version = 196608;
  state = State.ok;
  stop = false;
}

-- a stage that succeeds, and one that finds no relation; the realizer is its message
abbrev succeed : Bytes → Action (State × Bytes)
succeed r = pure (State.ok, r)

abbrev not_found : Bytes → Action (State × Bytes)
not_found r = pure (State.relation_not_found, codes "no table")

query_answered_example :
    (s : Session) × (process_simple_query zeros
        (λ r. r)
        (succeed ∷ not_found ∷ succeed ∷ [])
        []
        session
      ≡ done tt s)
    × (s.outgoing ≡ answer zeros (λ r. r) State.relation_not_found (codes "no table"))
unfolding run_stages c_string is_ok
query_answered_example =
    query_answered zeros (λ r. r) (succeed ∷ not_found ∷ succeed ∷ []) [] (codes "no table")
      State.relation_not_found session session refl (omega arith)

main_loop-Leaves_example : Leaves 8 (main_loop zeros (λ sql. pure tt) 8 session)
main_loop-Leaves_example =
    main_loop-Leaves zeros (λ sql. pure tt) (λ sql s. omega arith) 8 session (omega arith)
