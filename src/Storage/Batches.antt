-- ===== src/Storage/Batches.antt =====
-- src/storage/write_handler_impl.cpp: the batch of a write handler and the database it is written to.
use dbms.Prelude.{List, [], ◌∷◌, ◌++◌, Bool, Bytes, if◌then◌else◌}
use dbms.Storage.{Database}

-- what a `WriteBatch` of leveldb holds, in the order of the calls
pub data BatchEntry : Type 0 where
  put_entry : Bytes → Bytes → BatchEntry
  delete_entry : Bytes → BatchEntry

-- `Write` of leveldb, where its status is `ok`; else the database stays as it is.
pub record LeveldbWrite : Type 0 where
  pub apply : List BatchEntry → Database → Database

-- the batch, and the database of the table
pub record WriteHandler : Type 0 where
  pub batch : List BatchEntry
  pub db : Database

abbrev pub new_write_handler : Database → WriteHandler
new_write_handler db = record { batch = []; db = db }

-- `Put` with a key, which the other `Put` takes from `GenUUID`
unfoldable pub put : Bytes → Bytes → WriteHandler → WriteHandler
put tuple_id tuple h = record h { batch = h.batch ++ put_entry tuple_id tuple ∷ [] }

-- `Delete`
unfoldable pub delete : Bytes → WriteHandler → WriteHandler
delete tuple_id h = record h { batch = h.batch ++ delete_entry tuple_id ∷ [] }

-- `Commit`, by the status of `Write`. The batch is not cleared.
unfoldable pub commit : LeveldbWrite → Bool → WriteHandler → WriteHandler × Bool
commit l status h = (if status then record h { db = l.apply h.batch h.db } else h, status)
