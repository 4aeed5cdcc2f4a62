-- ===== src/Realizer/Insertion/Commands.antt =====
-- `InsertValue` of src/executor/insert_value.cpp, run by `QueryRealizer::ExecCmd`, and what a handler
-- that is shared makes of several insertions.
use dbms.Prelude.{
  ◌≡◌, refl, ap, ◌∙◌, List, [], ◌∷◌, ◌++◌, map, Bool, true, false, Bytes, codes, if◌then◌else◌,
}
use mathlib.Core.List.{append_assoc}
use dbms.Common.Define.{State, ok, insert_failed}
use dbms.Storage.Batches.{BatchEntry, put_entry, LeveldbWrite, WriteHandler, put, commit}

-- an insertion: the key of its row, the row, and whether leveldb will write it
pub record InsertValue : Type 0 where
  pub tuple_id : Bytes
  pub tuple : Bytes
  pub status : Bool

-- a command: `Prepare` and `Exec`, each with the state it returns and the response there is then
pub record Command (S : Type 0) : Type 0 where
  pub prepare : S → S × (State × Bytes)
  pub exec : S → S × (State × Bytes)

-- `InsertValue::Exec`
unfoldable pub exec_insert_value :
    LeveldbWrite → InsertValue → WriteHandler → WriteHandler × (State × Bytes)
unfolding put commit
exec_insert_value l v h =
    let (h', committed) = commit l v.status (put v.tuple_id v.tuple h) in
    if committed
    then (h', (ok, codes "insert 1 row"))
    else (h', (insert_failed, codes "insert failed"))

unfoldable pub insert_value : LeveldbWrite → InsertValue → Command WriteHandler
unfolding exec_insert_value
insert_value l v = record { prepare = λ h. (h, (ok, [])); exec = exec_insert_value l v }

-- what `ExecCmd` does after `Prepare`
unfoldable pub exec_prepared : {S : Type 0} → Command S → S × (State × Bytes) → S × (State × Bytes)
exec_prepared c (s, (ok, response)) = c.exec s
exec_prepared c (s, (state, response)) = (s, (state, response))

-- `ExecCmd`: the state and the message of the realizer
unfoldable pub exec_cmd : {S : Type 0} → Command S → S → S × (State × Bytes)
unfolding exec_prepared
exec_cmd c s = exec_prepared c (c.prepare s)

-- insertions by queries that share the handler, and their answers
unfoldable pub exec_all :
    LeveldbWrite → List InsertValue → WriteHandler → WriteHandler × List (State × Bytes)
unfolding exec_cmd insert_value
exec_all l [] h = (h, [])
exec_all l (v ∷ vs) h =
    let (h', answer) = exec_cmd (insert_value l v) h in
    let (h'', answers) = exec_all l vs h' in (h'', answer ∷ answers)

-- the insertion of a row that leveldb does not write
abbrev pub failing : Bytes × Bytes → InsertValue
failing (tuple_id, tuple) = record { tuple_id = tuple_id; tuple = tuple; status = false }

abbrev pub entries : List (Bytes × Bytes) → List BatchEntry
entries [] = []
entries ((tuple_id, tuple) ∷ rows) = put_entry tuple_id tuple ∷ entries rows

abbrev pub failed_answer : Bytes × Bytes → State × Bytes
failed_answer row = (insert_failed, codes "insert failed")

-- Insertions whose commits fail are answered as failed, but the next one through the same handler
-- whose commit succeeds writes their rows too, in their order and before its own.
pub exec_all-failed :
    (l : LeveldbWrite) (rows : List (Bytes × Bytes)) (tuple_id tuple : Bytes) (h : WriteHandler)
    → let written = h.batch ++ (entries rows ++ put_entry tuple_id tuple ∷ []) in
      let last : InsertValue = record { tuple_id = tuple_id; tuple = tuple; status = true } in
      exec_all l (map failing rows ++ last ∷ []) h ≡ (
        record { batch = written; db = l.apply written h.db },
        map failed_answer rows ++ (ok, codes "insert 1 row") ∷ [],
      )
unfolding exec_all exec_cmd insert_value exec_insert_value put commit
exec_all-failed l [] tuple_id tuple h = refl
exec_all-failed l ((k, t) ∷ rows) tuple_id tuple h =
    let answers = map failed_answer rows ++ (ok, codes "insert 1 row") ∷ [] in
    ap
      (λ (r : WriteHandler × List (State × Bytes)).
        (r.0, (insert_failed, codes "insert failed") ∷ r.1))
      (exec_all-failed l rows tuple_id tuple (put k t h))
    ∙ ap
        (λ (b : List BatchEntry). (
          record { batch = b; db = l.apply b h.db },
          (insert_failed, codes "insert failed") ∷ answers,
        ))
        (append_assoc h.batch (put_entry k t ∷ []) (entries rows ++ put_entry tuple_id tuple ∷ []))
