-- ===== src/Lib.antt =====
-- DBMS18: a relational database over leveldb that speaks the PostgreSQL protocol.
--
-- The parts, and how they interact. A session (src/rrportal/session.cpp) receives a query, and has a
-- realizer (src/realizer/query_realizer.cpp) parse it, check its names against the catalog, build a
-- plan and execute it. The plan is a tree of nodes (src/executor) over iterators of tables; each row
-- that the top node returns is sent to the client in a message (src/include/common/message.h). The
-- storage (src/storage/level_store.cpp) keeps the catalog of relations in memory and in two
-- databases, whose rows are tuples (src/common), and hands out the iterators.
--
-- * Common models src/common and src/include/common: blocks of memory (Memory), tuples and slots
--   (Tuple), attributes and relations with their catalog rows (Attribute, Relation), rows and their
--   descriptions (Row), message buffers (Message), the list of list.hpp (LinkedList), bitmaps
--   (Bitmap), enumerations (Define).
-- * Portal models src/rrportal/session.cpp: one message put together in the write buffer (Backend),
--   each message of the protocol (Messages), numbers in decimal (Decimal), and the session as actions
--   that return, throw or run into undefined behaviour (Session, with the answer to a query in
--   Session.Query and the main loop in Session.Loop), from the startup packet to the end of its
--   thread (Startup).
-- * Executor models src/executor: values and conditions (Expression), the tuple that a projection
--   makes (Projection), and the nodes with `Prepare`, `Open` and `GetNext`, together with the loop of
--   `ExecSelect` (Plan).
-- * Storage models src/storage/level_store.cpp: `InsertRelation`, `GetRelation`, `CreateRelation`,
--   `ReadSystemTable`, and the counted handlers of tables; Start has `Start`, `InitDB` and
--   `CreateSystemTable`, Restart what is written for a restart and read back, and Batches the write
--   handler (src/storage/write_handler_impl.cpp).
-- * Realizer models `Check` (Realizer) and `Build` (Realizer.Build) of query_realizer.cpp,
--   `ExecCreate` (Realizer.Definition), the row that `ExecInsert` makes (Realizer.Insertion), and
--   the command that puts it (Realizer.Insertion.Commands). Slots has what the check leaves for the
--   plan, and Build.Release the iterators that are given back.
-- * Prelude has what these share, and Tests runs at concrete inputs.
--
-- Conventions. Bytes are numbers below 256, a block is the list of its bytes, and an access outside
-- it is undefined behaviour: `none`, or `fault` where a call can also return an error. Integers are
-- their bit patterns; where the code cuts a number to its width, the model has the remainder. A
-- failed `assert` counts as undefined. What malloc leaves in a block is a parameter (`Allocator`),
-- and so are the comparisons of doubles (`Doubles`) and `Put` and `Write` of leveldb (`Leveldb`,
-- `LeveldbWrite`), of which the results on restarts ask that `Put` of a new key adds an entry and
-- leaves the others in their order. An iterator of leveldb is a parameter too, its operations on a
-- state that nothing else reads (`Iterator`); what the results ask of it is that `SeekToFirst`
-- leads to the first tuple and `Next` from each to the next (`Holds`). A pointer to a relation is
-- its position in the list of all relations, since two maps share it; the handler of a table is
-- known by the relation, since all scans of a table share it.
--
-- Fuel. The main loop has a round for each byte of input and one more, which is enough since every
-- round that does not end it reads a byte. The scan of a startup packet has a round for each byte
-- and one more, and `First` of a list one for each node before its own and one more. `GetNext` and
-- `Open` recurse over the plan and loop over the rows; the results state that there is fuel from
-- which on the call returns. Twenty digits are enough for a number of sixty-four bits.
--
-- Not modelled: leveldb, boost and the parser that bison generates (libraries and generated code),
-- exceptions other than the `std::runtime_error` of a read (a write to a socket succeeds), the
-- strings of keys that `WriteRelMeta` uses after their end (keys are a parameter), the description
-- of the result that `ExecSelect` sends before its rows, sockets, threads and locks, the JSON form
-- of relations, `COPY` between files and tables, the copied memory contexts of PostgreSQL, and the
-- executors that are stubs.
pub mod Prelude
pub mod Common
pub mod Portal
pub mod Executor
pub mod Storage
pub mod Realizer
pub mod Tests
