-- ===== src/Ffi/Reports.antt =====
-- crates/csgdb-ffi/src/lib.rs: what `csgdb_errcode` gives after a call of a statement.
use csgdb.Prelude.{ℕ, ◌≤◌, ◌≡◌, ◌||◌, ◌==◌, if◌then◌else◌, arith}
use csgdb.Ffi.Codes.{csgdb_ok, csgdb_row, csgdb_done, csgdb_interrupt, map_sqlite_code}
use csgdb.Ffi.{
  RawStatement, CsgdbStatement, ApiCall, set_sqlite_result, statement_ready_operation, bind_value,
  csgdb_bind, csgdb_step, csgdb_reset, csgdb_clear_bindings, csgdb_reset_and_clear_bindings,
  with_column_metadata, with_row_column, csgdb_column_name, csgdb_column_type, csgdb_column_int,
  csgdb_column_int64, csgdb_column_double, csgdb_column_text, csgdb_column_blob, csgdb_column_bytes,
  read_column, csgdb_column_blob_view, call,
}

map_sqlite_code_bound : (result : ℕ) → map_sqlite_code result ≤ csgdb_interrupt
unfolding map_sqlite_code
map_sqlite_code_bound result = ground arith

-- The code that a call returns, as `csgdb_errcode` tells it: a row and the end are successes.
abbrev pub reported : ℕ → ℕ
reported code = if code == csgdb_row || code == csgdb_done then csgdb_ok else code

-- After any call on a live statement, whatever the engine answers, the connection's last code is the
-- code that the call returned, where a row and the end count as success; and it is one of the codes up
-- to `CSGDB_INTERRUPT`.
pub call-reported :
    (r : RawStatement) (c : ApiCall) (s : CsgdbStatement r)
    → ((call r c s).1.last_code ≡ reported (call r c s).0)
      × ((call r c s).1.last_code ≤ csgdb_interrupt)
unfolding call csgdb_bind bind_value csgdb_step csgdb_reset csgdb_clear_bindings
    statement_ready_operation csgdb_reset_and_clear_bindings read_column csgdb_column_type
    csgdb_column_int csgdb_column_int64 csgdb_column_double csgdb_column_text csgdb_column_blob
    csgdb_column_bytes csgdb_column_name csgdb_column_blob_view with_row_column with_column_metadata
    set_sqlite_result
call-reported r (ApiCall.bind i value) s =
    ground (arith, map_sqlite_code_bound (r.bind i value s.raw).0)
call-reported r ApiCall.step s = ground (arith, map_sqlite_code_bound (r.step s.raw).0)
call-reported r ApiCall.reset s = ground (arith, map_sqlite_code_bound (r.reset s.raw).0)
call-reported r ApiCall.clear_bindings s =
    ground (arith, map_sqlite_code_bound (r.clear_bindings s.raw).0)
call-reported r ApiCall.reset_and_clear_bindings s = ground (
  arith,
  map_sqlite_code_bound (r.reset s.raw).0,
  map_sqlite_code_bound (r.clear_bindings (r.reset s.raw).1).0,
)
call-reported r (ApiCall.column k i) s = ground arith
call-reported r (ApiCall.column_name i) s = ground arith
call-reported r (ApiCall.blob_view i) s = ground arith
