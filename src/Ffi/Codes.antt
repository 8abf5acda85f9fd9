-- ===== src/Ffi/Codes.antt =====
-- crates/csgdb-ffi/src/lib.rs: the codes of the C interface. The numbers of SQLite's codes are those
-- that SQLite documents.
use csgdb.Prelude.{ℕ, ◌%◌, ◌^◌, ◌||◌, Option, none, some, ltb, ◌==◌, if◌then◌else◌}
use csgdb.Prelude.Int.{ℤ, pos, negsuc}
use csgdb.Core.Error.{ErrorCode}
use csgdb.Core.Connection.{TransactionState, CheckpointMode}

abbrev pub csgdb_ok : ℕ
csgdb_ok = 0

abbrev pub csgdb_invalid_argument : ℕ
csgdb_invalid_argument = 1

abbrev pub csgdb_invalid_open_flags : ℕ
csgdb_invalid_open_flags = 2

abbrev pub csgdb_invalid_key : ℕ
csgdb_invalid_key = 3

abbrev pub csgdb_key_required : ℕ
csgdb_key_required = 4

abbrev pub csgdb_keystore_unavailable : ℕ
csgdb_keystore_unavailable = 5

abbrev pub csgdb_busy : ℕ
csgdb_busy = 6

abbrev pub csgdb_readonly : ℕ
csgdb_readonly = 7

abbrev pub csgdb_constraint : ℕ
csgdb_constraint = 8

abbrev pub csgdb_corrupt : ℕ
csgdb_corrupt = 9

abbrev pub csgdb_storage : ℕ
csgdb_storage = 10

abbrev pub csgdb_misuse : ℕ
csgdb_misuse = 11

abbrev pub csgdb_range : ℕ
csgdb_range = 12

abbrev pub csgdb_interrupt : ℕ
csgdb_interrupt = 13

abbrev pub csgdb_null : ℕ
csgdb_null = 5

abbrev pub csgdb_row : ℕ
csgdb_row = 100

abbrev pub csgdb_done : ℕ
csgdb_done = 101

abbrev pub csgdb_txn_none : ℕ
csgdb_txn_none = 0

abbrev pub csgdb_txn_read : ℕ
csgdb_txn_read = 1

abbrev pub csgdb_txn_write : ℕ
csgdb_txn_write = 2

abbrev pub csgdb_checkpoint_passive : ℕ
csgdb_checkpoint_passive = 0

abbrev pub csgdb_checkpoint_full : ℕ
csgdb_checkpoint_full = 1

abbrev pub csgdb_checkpoint_restart : ℕ
csgdb_checkpoint_restart = 2

abbrev pub csgdb_checkpoint_truncate : ℕ
csgdb_checkpoint_truncate = 3

abbrev pub sqlite_ok : ℕ
sqlite_ok = 0

abbrev pub sqlite_busy : ℕ
sqlite_busy = 5

abbrev pub sqlite_locked : ℕ
sqlite_locked = 6

abbrev pub sqlite_readonly : ℕ
sqlite_readonly = 8

abbrev pub sqlite_interrupt : ℕ
sqlite_interrupt = 9

abbrev pub sqlite_corrupt : ℕ
sqlite_corrupt = 11

abbrev pub sqlite_constraint : ℕ
sqlite_constraint = 19

abbrev pub sqlite_misuse : ℕ
sqlite_misuse = 21

abbrev pub sqlite_range : ℕ
sqlite_range = 25

abbrev pub sqlite_notadb : ℕ
sqlite_notadb = 26

abbrev pub sqlite_row : ℕ
sqlite_row = 100

abbrev pub sqlite_done : ℕ
sqlite_done = 101

-- The low byte of an extended code is its primary one.
unfoldable pub map_sqlite_code : ℕ → ℕ
map_sqlite_code result =
    let code = result % 256 in
    if code == sqlite_ok
    then csgdb_ok
    else if code == sqlite_busy || code == sqlite_locked
    then csgdb_busy
    else if code == sqlite_readonly
    then csgdb_readonly
    else if code == sqlite_constraint
    then csgdb_constraint
    else if code == sqlite_corrupt || code == sqlite_notadb
    then csgdb_corrupt
    else if code == sqlite_misuse
    then csgdb_misuse
    else if code == sqlite_range
    then csgdb_range
    else if code == sqlite_interrupt
    then csgdb_interrupt
    else csgdb_storage

unfoldable pub error_code : ErrorCode → ℕ
error_code ErrorCode.invalid_open_flags = csgdb_invalid_open_flags
error_code ErrorCode.plaintext_requires_opt_in = csgdb_invalid_open_flags
error_code ErrorCode.invalid_key_length = csgdb_invalid_key
error_code ErrorCode.invalid_database_key = csgdb_invalid_key
error_code ErrorCode.key_required = csgdb_key_required
error_code ErrorCode.key_store_unavailable = csgdb_keystore_unavailable
error_code ErrorCode.database_busy = csgdb_busy
error_code ErrorCode.database_read_only = csgdb_readonly
error_code ErrorCode.constraint_violation = csgdb_constraint
error_code ErrorCode.database_corrupt = csgdb_corrupt
error_code ErrorCode.query_interrupted = csgdb_interrupt
error_code ErrorCode.invalid_parameter_index = csgdb_range
error_code ErrorCode.invalid_column_index = csgdb_range
error_code ErrorCode.invalid_statement_state = csgdb_misuse
error_code ErrorCode.invalid_path = csgdb_invalid_argument
error_code ErrorCode.invalid_vfs = csgdb_invalid_argument
error_code ErrorCode.invalid_fault_rule = csgdb_invalid_argument
error_code ErrorCode.invalid_sql = csgdb_invalid_argument
error_code ErrorCode.parameter_count_mismatch = csgdb_invalid_argument
error_code ErrorCode.invalid_column_type = csgdb_invalid_argument
error_code ErrorCode.invalid_query = csgdb_invalid_argument
error_code ErrorCode.invalid_utf8 = csgdb_invalid_argument
error_code ErrorCode.invalid_busy_timeout = csgdb_invalid_argument
error_code ErrorCode.invalid_checkpoint_threshold = csgdb_invalid_argument
error_code ErrorCode.invalid_database_name = csgdb_invalid_argument
error_code _ = csgdb_storage

abbrev pub txn_code : TransactionState → ℕ
txn_code TransactionState.idle = csgdb_txn_none
txn_code TransactionState.read = csgdb_txn_read
txn_code TransactionState.write = csgdb_txn_write

unfoldable pub checkpoint_mode : ℤ → Option CheckpointMode
checkpoint_mode (pos mode) =
    if mode == csgdb_checkpoint_passive
    then some CheckpointMode.passive
    else if mode == csgdb_checkpoint_full
    then some CheckpointMode.full
    else if mode == csgdb_checkpoint_restart
    then some CheckpointMode.restart
    else if mode == csgdb_checkpoint_truncate
    then some CheckpointMode.truncate
    else none
checkpoint_mode (negsuc n) = none

-- -1 stands for a count that is not known, or that a C int cannot hold.
unfoldable pub optional_frame_count : Option ℕ → ℤ
optional_frame_count none = negsuc 0
optional_frame_count (some frames) = if ltb frames (2 ^ 31) then pos frames else negsuc 0
