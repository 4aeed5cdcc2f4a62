-- ===== src/Tests/Insertions.antt =====
-- Insertions.
use dbms.Prelude.{◌≡◌, refl, arith, some, List, [], true, ◌∷◌, bytes_eq, codes}
use dbms.Prelude.Maps.{find, insert, erase, bytes_key}
use dbms.Common.Define.{ok, insert_failed}
use dbms.Storage.{Database}
use dbms.Storage.Batches.{BatchEntry, put_entry, delete_entry, LeveldbWrite, new_write_handler}
use dbms.Realizer.Insertion.Commands.{InsertValue, exec_all, failing, exec_all-failed}
use dbms.Common.Memory.Integers.{encode}
use dbms.Realizer.{integer}
use dbms.Realizer.Insertion.{InsertStmt, inserted_tuple, name2val, pair_up}
use dbms.Realizer.Insertion.Slots.{inserted_tuple-slots}
use dbms.Tests.{zeros, users}

abbrev five : InsertStmt
five = record {
  table_name = codes "users";
  opt_column_names = codes "id" ∷ [];
  insert_values = integer 5 ∷ [];
}

inserted_tuple-slots_example : inserted_tuple zeros users five ≡ some (0 ∷ 0 ∷ 0 ∷ 0 ∷ [])
unfolding name2val pair_up insert find bytes_eq encode
inserted_tuple-slots_example =
    inserted_tuple-slots zeros users five ((codes "id", integer 5) ∷ []) refl (omega arith)
      ((integer 5, refl, omega arith), tt)

-- a database in which the last value of a key counts
abbrev write_entries : List BatchEntry → Database → Database
write_entries [] db = db
write_entries (put_entry k v ∷ batch) db = write_entries batch ((k, v) ∷ erase k db)
write_entries (delete_entry k ∷ batch) db = write_entries batch (erase k db)

abbrev writing : LeveldbWrite
writing = record { apply = write_entries }

abbrev last : InsertValue
last = record { tuple_id = codes "k2"; tuple = 2 ∷ []; status = true }

exec_all-failed_example :
    exec_all writing (failing (codes "k1", 1 ∷ []) ∷ last ∷ []) (new_write_handler []) ≡ (
      record {
        batch = put_entry (codes "k1") (1 ∷ []) ∷ put_entry (codes "k2") (2 ∷ []) ∷ [];
        db = (codes "k2", 2 ∷ []) ∷ (codes "k1", 1 ∷ []) ∷ [];
      },
      (insert_failed, codes "insert failed") ∷ (ok, codes "insert 1 row") ∷ [],
    )
unfolding erase bytes_eq
exec_all-failed_example =
    exec_all-failed writing ((codes "k1", 1 ∷ []) ∷ []) (codes "k2") (2 ∷ []) (new_write_handler [])
