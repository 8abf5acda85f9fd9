-- ===== src/Storage/Errors.antt =====
-- crates/csgdb-storage/src/lib.rs: the errors of rusqlite as the library's codes. rusqlite's types are
-- given by the cases that the code tells apart; extended codes are the numbers that SQLite documents.
use csgdb.Prelude.{ℕ, ◌==◌, if◌then◌else◌}
use csgdb.Core.Error.{
  ErrorCode, invalid_database_key, database_corrupt, storage_write_failed, storage_sync_failed,
  storage_truncate_failed, database_busy, database_read_only, constraint_violation,
  query_interrupted, storage, invalid_sql, parameter_count_mismatch, invalid_parameter_index,
  invalid_column_index, invalid_column_type, invalid_utf8,
}

pub data FailureCode : Type 0 where
  not_a_database corrupt busy locked read_only constraint interrupted : FailureCode
  other : FailureCode

pub data SqlError : Type 0 where
  sqlite_failure : FailureCode → (extended_code : ℕ) → SqlError
  sql_input_error parameter_count parameter_name column_index column_type utf8_error : SqlError
  other_error : SqlError

abbrev pub ioerr_write : ℕ
ioerr_write = 778

abbrev pub ioerr_fsync : ℕ
ioerr_fsync = 1034

abbrev pub ioerr_truncate : ℕ
ioerr_truncate = 1546

abbrev pub of_failure : FailureCode → ErrorCode
of_failure busy = database_busy
of_failure locked = database_busy
of_failure read_only = database_read_only
of_failure constraint = constraint_violation
of_failure corrupt = database_corrupt
of_failure interrupted = query_interrupted
of_failure _ = storage

unfoldable pub map_storage_error : SqlError → ErrorCode
map_storage_error (sqlite_failure code extended) =
    if extended == ioerr_write
    then storage_write_failed
    else if extended == ioerr_fsync
    then storage_sync_failed
    else if extended == ioerr_truncate
    then storage_truncate_failed
    else of_failure code
map_storage_error sql_input_error = invalid_sql
map_storage_error parameter_count = parameter_count_mismatch
map_storage_error parameter_name = invalid_parameter_index
map_storage_error column_index = invalid_column_index
map_storage_error column_type = invalid_column_type
map_storage_error utf8_error = invalid_utf8
map_storage_error other_error = storage

unfoldable pub map_open_error : SqlError → ErrorCode
map_open_error (sqlite_failure not_a_database extended) = invalid_database_key
map_open_error (sqlite_failure corrupt extended) = database_corrupt
map_open_error e = map_storage_error e
