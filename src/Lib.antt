-- ===== src/Lib.antt =====
-- csgdb, an embedded encrypted database over SQLite for agents: a model of its own logic, with the
-- theorems that make it correct.
--
-- The program. crates/csgdb-core holds what needs no engine: error codes, open flags and plans,
-- keys, values. crates/csgdb-storage calls SQLite and SQLCipher. crates/csgdb is the library: a pool
-- of one writer thread and several readers (pool.rs), typed collections (collection.rs) and typed
-- queries over them (query.rs). crates/csgdb-derive is the macro that makes a collection of a
-- struct: its schema, its statements and its descriptors. crates/csgdb-ffi is the C interface. A
-- caller opens a plan, the plan is resolved to a key, and the pool opens its connections from it.
-- Writes go through one bounded queue to the writer, which takes adjacent ones together into a group
-- commit and checkpoints the write-ahead log by its maintenance policy. Reads lease a connection of
-- the read pool. Queries are compiled to SQL with bound values.
--
-- The files, with the code that each models:
--   Prelude           numbers, tests, texts, lists, and signed integers, shared by all
--   Core/Error        crates/csgdb-core/src/error.rs
--   Core/Connection   crates/csgdb-core/src/connection.rs
--   Core/Key          crates/csgdb-core/src/key.rs
--   Core/Value        crates/csgdb-core/src/value.rs
--   Core/Flags        crates/csgdb-core/src/open.rs, OpenFlags and normalize_and_validate_flags
--   Core/Open         crates/csgdb-core/src/open.rs, prepare_open and resolve_key
--   Pool/Options      crates/csgdb/src/pool.rs, the options, their checks, the division of the cache
--   Pool/Readers      crates/csgdb/src/pool.rs, ReadPool and ReadLease; System has the interleavings
--   Pool/Reentry      crates/csgdb/src/pool.rs, the thread-local guards
--   Pool/Queue        crates/csgdb/src/pool.rs, WriteQueue
--   Pool/Runtime      crates/csgdb/src/pool.rs, PoolMetrics and WriterRuntime
--   Pool/Group        crates/csgdb/src/pool.rs, execute_group_commit and execute_group_job
--   Pool/Writer       crates/csgdb/src/pool.rs, writer_main and the submissions
--   Collection        crates/csgdb/src/collection.rs, schemas and the checks on them
--   Collection/Rows   crates/csgdb/src/collection.rs, the statements of the registries and their rows
--   Collection/Registry  crates/csgdb/src/collection.rs, the registries and the physical table;
--                     Indexes has the indexes, Migrate register_collection, migrate_collection
--   Collection/Fields crates/csgdb/src/collection.rs, FieldValue and its implementations
--   Query             crates/csgdb/src/query.rs, predicates and compile_predicate
--   Query/Plan        crates/csgdb/src/query.rs, compile_query and compile_exists_query
--   Derive            crates/csgdb-derive/src/lib.rs, the attributes; Expand has expand_collection, Types
--                     classify_type, Sql the generated texts
--   Storage           crates/csgdb-storage/src/lib.rs, open_with_access with keys and cipher profiles;
--                     Flags has the open flags, Errors the mapping of errors
--   Ffi               crates/csgdb-ffi/src/lib.rs, prepared statements; Codes has the codes
--   Fault             crates/csgdb-storage/src/fault.rs, the rules and the controller
-- The other child modules hold the proofs, named for what they prove, and Examples the runs.
--
-- How the code is read. A method that changes its object takes the state and returns the new one beside
-- its result. A critical section under a mutex is one step; what other threads do while a thread waits
-- on a condition variable is a list of what it finds at its wake-ups, and the theorems hold for every
-- such list. The loop of the writer's thread has such a list for each of its turns. The storage engine,
-- the key provider, rusqlite, a C program's prepared statement, the digest and the parser of paths are
-- parameters, with their own state; Pool/Group/Laws names what the group commit relies on of the engine:
-- SQLite's documented transactions and savepoints, and so do Keeps of
-- Collection/Registry/Found and Transactional of Collection/Registry/Migrate/Atomic for the registries,
-- and Ffi/Agree what is documented of rusqlite's codes.
-- A struct that the macro is applied to is given as `syn` parses it.
-- Numbers are natural numbers: a 64-bit counter wraps or saturates where the code's does. Durations
-- are nanoseconds. Texts are lists of UTF-8 bytes, and a double is its 64 bits. An error is its code.
--
-- Bounds. Flags are the ten known bits, numbers below 1024: no other OpenFlags can be made. The two
-- loops that wait recurse on the list of wake-ups, and answer `none` while they still wait; the loop of
-- the writer recurses on its turns. The decimal form of a number has fuel, one more than the number,
-- which has at most that many digits. The others recurse on their data.
--
-- Not modelled: the engine and its encryption, the methods of the storage adapter and of the C interface
-- that only pass a call on, the handing over of raw pointers, the command line,
-- the execution of queries (calls of the engine), the code that encodes and decodes a row (each field
-- is converted as Collection/Fields has it), f32 fields (their narrowing is the floating-point unit's),
-- poisoned locks (the code goes on with the value that it finds), zeroing of secrets, the redacted Debug
-- texts, and the messages of errors.
pub mod Prelude
pub mod Collection
pub mod Core
pub mod Derive
pub mod Fault
pub mod Ffi
pub mod Pool
pub mod Query
pub mod Storage
