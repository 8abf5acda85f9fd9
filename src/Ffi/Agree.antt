-- ===== src/Ffi/Agree.antt =====
-- crates/csgdb-ffi/src/lib.rs: a failure of SQLite reaches a C program on two ways, straight from a
-- statement's call (`map_sqlite_code`), or through the storage adapter's error (`map_storage_error` of
-- crates/csgdb-storage/src/lib.rs, then `error_code`).
use csgdb.Prelude.{ℕ, ◌%◌, ◌≡◌, ◌≢◌}
use csgdb.Storage.Errors.{FailureCode}
use csgdb.Ffi.Codes.{
  sqlite_busy, sqlite_locked, sqlite_readonly, sqlite_interrupt, sqlite_corrupt, sqlite_constraint,
  sqlite_notadb,
}

-- SQLITE_ERROR, with which a text that does not compile ends.
abbrev pub sqlite_error : ℕ
sqlite_error = 1

-- How rusqlite documents the code of a failure: the case of the result's low byte.
pub record Documented (failure_of : ℕ → FailureCode) : Type 0 where
  pub is_busy : (r : ℕ) → r % 256 ≡ sqlite_busy → failure_of r ≡ FailureCode.busy
  pub is_locked : (r : ℕ) → r % 256 ≡ sqlite_locked → failure_of r ≡ FailureCode.locked
  pub is_read_only : (r : ℕ) → r % 256 ≡ sqlite_readonly → failure_of r ≡ FailureCode.read_only
  pub is_interrupted : (r : ℕ) → r % 256 ≡ sqlite_interrupt → failure_of r ≡ FailureCode.interrupted
  pub is_corrupt : (r : ℕ) → r % 256 ≡ sqlite_corrupt → failure_of r ≡ FailureCode.corrupt
  pub is_constraint : (r : ℕ) → r % 256 ≡ sqlite_constraint → failure_of r ≡ FailureCode.constraint
  pub is_not_a_database :
      (r : ℕ) → r % 256 ≡ sqlite_notadb → failure_of r ≡ FailureCode.not_a_database
  pub is_other :
      (r : ℕ)
      → r % 256 ≢ sqlite_busy
      → r % 256 ≢ sqlite_locked
      → r % 256 ≢ sqlite_readonly
      → r % 256 ≢ sqlite_interrupt
      → r % 256 ≢ sqlite_corrupt
      → r % 256 ≢ sqlite_constraint
      → r % 256 ≢ sqlite_notadb
      → failure_of r ≡ FailureCode.other
