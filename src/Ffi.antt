-- ===== src/Ffi.antt =====
-- crates/csgdb-ffi/src/lib.rs: the prepared statements of the C interface. The engine's statement is a
-- parameter, with the calls that the interface makes of it; a result code is the number that SQLite
-- documents. A pointer that may be null is an option.
pub mod Codes
pub mod Protocol
pub mod Reports
pub mod Agree
mod Examples
use csgdb.Prelude.{
  ℕ, Bool, true, false, not, ◌&&◌, ◌||◌, List, [], ◌∷◌, Option, none, some, Str, ltb, leb, ◌==◌,
  if◌then◌else◌,
}
use csgdb.Prelude.Int.{ℤ, pos, negsuc}
use csgdb.Ffi.Codes.{
  csgdb_null, csgdb_ok, csgdb_invalid_argument, csgdb_misuse, csgdb_range, csgdb_row, csgdb_done,
  csgdb_storage, sqlite_ok, sqlite_row, sqlite_done, map_sqlite_code,
}

-- What is bound to a parameter. Numbers are as C passes them, a double is its 64 bits.
pub data Bound : Type 0 where
  null : Bound
  int int64 : ℤ → Bound
  double : ℕ → Bound
  text blob : Str → Bound

-- `column_bytes` is a C int.
pub record RawStatement : Type 1 where
  pub S : Type 0
  pub is_null : S → Bool
  pub step : S → ℕ × S
  pub reset : S → ℕ × S
  pub clear_bindings : S → ℕ × S
  pub finalize : S → ℕ
  pub bind : ℤ → Bound → S → ℕ × S
  pub column_name : ℤ → S → Option Str × S
  pub column_type : ℤ → S → ℕ × S
  pub column_int : ℤ → S → ℤ × S
  pub column_int64 : ℤ → S → ℤ × S
  pub column_double : ℤ → S → ℕ × S
  pub column_text : ℤ → S → Option Str × S
  pub column_blob : ℤ → S → Option Str × S
  pub column_bytes : ℤ → S → ℤ × S

pub data StatementState : Type 0 where
  ready row done failed : StatementState

-- `CsgdbStatement`, with the last code of the connection that it shares.
pub record CsgdbStatement (r : RawStatement) : Type 0 where
  pub raw : r.S
  pub state : StatementState
  pub parameter_count : ℕ
  pub column_count : ℕ
  pub last_code : ℕ

abbrev pub is_ready : StatementState → Bool
is_ready ready = true
is_ready _ = false

abbrev pub is_row : StatementState → Bool
is_row row = true
is_row _ = false

-- `index > 0 && index <= count`, and `index >= 0 && index < count`.
abbrev pub in_parameters : ℤ → ℕ → Bool
in_parameters (pos n) count = ltb 0 n && leb n count
in_parameters (negsuc n) count = false

abbrev pub in_columns : ℤ → ℕ → Bool
in_columns (pos n) count = ltb n count
in_columns (negsuc n) count = false

-- The bytes of a C string before its NUL.
abbrev before_nul : Str → Str
before_nul [] = []
before_nul (c ∷ s) = let rest = c ∷ before_nul s in if c == 0 then [] else rest

abbrev first_bytes : ℕ → Str → Str
first_bytes ℕ.zero s = []
first_bytes (ℕ.suc n) [] = []
first_bytes (ℕ.suc n) (c ∷ s) = c ∷ first_bytes n s

-- A negative length means that the text ends at its NUL.
abbrev pub text_bytes : Str → ℤ → Str
text_bytes memory (pos n) = first_bytes n memory
text_bytes memory (negsuc n) = before_nul memory

-- What `csgdb_bind_text` and `csgdb_bind_blob` bind: a null pointer is NULL.
abbrev pub bound_text : Option Str → ℤ → Bound
bound_text none length = null
bound_text (some memory) length = text (text_bytes memory length)

abbrev pub bound_blob : Option Str → ℕ → Bound
bound_blob none length = null
bound_blob (some memory) length = blob (first_bytes length memory)

module _ (r : RawStatement) where
  -- `SharedDatabase::set_code` and `set_ok`
  abbrev pub set_code : ℕ → CsgdbStatement r → ℕ × CsgdbStatement r
  set_code code s = (code, record s { last_code = code })

  abbrev pub set_ok : CsgdbStatement r → CsgdbStatement r
  set_ok s = record s { last_code = csgdb_ok }

  unfoldable pub set_sqlite_result : ℕ → CsgdbStatement r → ℕ × CsgdbStatement r
  set_sqlite_result result s =
      if result == sqlite_ok then (csgdb_ok, set_ok s) else set_code (map_sqlite_code result) s

  abbrev pub after_call : ℕ × r.S → CsgdbStatement r → ℕ × CsgdbStatement r
  after_call (result, raw) s = set_sqlite_result result (record s { raw = raw })

  unfoldable pub statement_ready_operation :
      (r.S → ℕ × r.S) → CsgdbStatement r → ℕ × CsgdbStatement r
  statement_ready_operation operation s =
      if not (is_ready s.state) || r.is_null s.raw
      then set_code csgdb_misuse s
      else after_call (operation s.raw) s

  unfoldable pub bind_value : ℤ → (r.S → ℕ × r.S) → CsgdbStatement r → ℕ × CsgdbStatement r
  bind_value index operation s =
      if not (in_parameters index s.parameter_count)
      then set_code csgdb_range s
      else if not (is_ready s.state) || r.is_null s.raw
      then set_code csgdb_misuse s
      else after_call (operation s.raw) s

  -- The six `csgdb_bind_*` functions, each with what it binds.
  unfoldable pub csgdb_bind : ℤ → Bound → CsgdbStatement r → ℕ × CsgdbStatement r
  csgdb_bind index value s = bind_value index (r.bind index value) s

  abbrev pub after_step : ℕ × r.S → CsgdbStatement r → ℕ × CsgdbStatement r
  after_step (result, raw) s =
      if result == sqlite_row
      then (csgdb_row, set_ok (record s { raw = raw; state = row }))
      else if result == sqlite_done
      then (csgdb_done, set_ok (record s { raw = raw; state = done }))
      else set_code (map_sqlite_code result) (record s { raw = raw; state = failed })

  abbrev pub has_ended : StatementState → Bool
  has_ended done = true
  has_ended failed = true
  has_ended _ = false

  unfoldable pub csgdb_step : CsgdbStatement r → ℕ × CsgdbStatement r
  csgdb_step s = if has_ended s.state then set_code csgdb_misuse s else after_step (r.step s.raw) s

  abbrev pub restarted : ℕ × r.S → CsgdbStatement r → CsgdbStatement r
  restarted (result, raw) s = record s { raw = raw; state = ready }

  unfoldable pub csgdb_reset : CsgdbStatement r → ℕ × CsgdbStatement r
  csgdb_reset s = set_sqlite_result (r.reset s.raw).0 (restarted (r.reset s.raw) s)

  unfoldable pub csgdb_clear_bindings : CsgdbStatement r → ℕ × CsgdbStatement r
  csgdb_clear_bindings s = statement_ready_operation r.clear_bindings s

  unfoldable pub csgdb_reset_and_clear_bindings : CsgdbStatement r → ℕ × CsgdbStatement r
  csgdb_reset_and_clear_bindings s =
      let (reset_result, raw) = r.reset s.raw in
      let (clear_result, raw') = r.clear_bindings raw in
      let s' = record s { raw = raw'; state = ready } in
      if reset_result == sqlite_ok
      then set_sqlite_result clear_result s'
      else set_code (map_sqlite_code reset_result) s'

  abbrev pub after_read : {T : Type 0} → T × r.S → CsgdbStatement r → T × CsgdbStatement r
  after_read (value, raw) s = (value, set_ok (record s { raw = raw }))

  unfoldable pub with_column_metadata :
      {T : Type 0} → ℤ → T → (r.S → T × r.S) → CsgdbStatement r → T × CsgdbStatement r
  with_column_metadata index default operation s =
      if r.is_null s.raw
      then (default, (set_code csgdb_misuse s).1)
      else if not (in_columns index s.column_count)
      then (default, (set_code csgdb_range s).1)
      else after_read (operation s.raw) s

  unfoldable pub with_row_column :
      {T : Type 0} → ℤ → T → (r.S → T × r.S) → CsgdbStatement r → T × CsgdbStatement r
  with_row_column index default operation s =
      if r.is_null s.raw || not (is_row s.state)
      then (default, (set_code csgdb_misuse s).1)
      else if not (in_columns index s.column_count)
      then (default, (set_code csgdb_range s).1)
      else after_read (operation s.raw) s

  unfoldable pub csgdb_column_name : ℤ → CsgdbStatement r → Option Str × CsgdbStatement r
  csgdb_column_name index s = with_column_metadata index none (r.column_name index) s

  unfoldable pub csgdb_column_type : ℤ → CsgdbStatement r → ℕ × CsgdbStatement r
  csgdb_column_type index s = with_row_column index csgdb_null (r.column_type index) s

  unfoldable pub csgdb_column_int : ℤ → CsgdbStatement r → ℤ × CsgdbStatement r
  csgdb_column_int index s = with_row_column index (pos 0) (r.column_int index) s

  unfoldable pub csgdb_column_int64 : ℤ → CsgdbStatement r → ℤ × CsgdbStatement r
  csgdb_column_int64 index s = with_row_column index (pos 0) (r.column_int64 index) s

  unfoldable pub csgdb_column_double : ℤ → CsgdbStatement r → ℕ × CsgdbStatement r
  csgdb_column_double index s = with_row_column index 0 (r.column_double index) s

  unfoldable pub csgdb_column_text : ℤ → CsgdbStatement r → Option Str × CsgdbStatement r
  csgdb_column_text index s = with_row_column index none (r.column_text index) s

  unfoldable pub csgdb_column_blob : ℤ → CsgdbStatement r → Option Str × CsgdbStatement r
  csgdb_column_blob index s = with_row_column index none (r.column_blob index) s

  unfoldable pub csgdb_column_bytes : ℤ → CsgdbStatement r → ℤ × CsgdbStatement r
  csgdb_column_bytes index s = with_row_column index (pos 0) (r.column_bytes index) s

  -- The outputs of `csgdb_column_blob_view`, where both pointers are given: the data and its length.
  abbrev nothing : ℕ × CsgdbStatement r → (Option Str × ℕ) × ℕ × CsgdbStatement r
  nothing (code, s) = ((none, 0), code, s)

  abbrev viewed : Option Str → ℤ × r.S → CsgdbStatement r → (Option Str × ℕ) × ℕ × CsgdbStatement r
  viewed content (negsuc n, raw) s = nothing (set_code csgdb_storage (record s { raw = raw }))
  viewed content (pos n, raw) s = ((content, n), csgdb_ok, set_ok (record s { raw = raw }))

  unfoldable pub csgdb_column_blob_view :
      (has_outputs : Bool) → ℤ → CsgdbStatement r → (Option Str × ℕ) × ℕ × CsgdbStatement r
  csgdb_column_blob_view has_outputs index s =
      if not has_outputs
      then nothing (set_code csgdb_invalid_argument s)
      else if r.is_null s.raw || not (is_row s.state)
      then nothing (set_code csgdb_misuse s)
      else if not (in_columns index s.column_count)
      then nothing (set_code csgdb_range s)
      else viewed (r.column_blob index s.raw).0 (r.column_bytes index (r.column_blob index s.raw).1)
          s

-- The functions that read a column of the row.
pub data Reader : Type 0 where
  read_type read_int read_int64 read_double read_text read_blob read_bytes : Reader

unfoldable pub read_column : (r : RawStatement) → Reader → ℤ → CsgdbStatement r → CsgdbStatement r
read_column r read_type index s = (csgdb_column_type r index s).1
read_column r read_int index s = (csgdb_column_int r index s).1
read_column r read_int64 index s = (csgdb_column_int64 r index s).1
read_column r read_double index s = (csgdb_column_double r index s).1
read_column r read_text index s = (csgdb_column_text r index s).1
read_column r read_blob index s = (csgdb_column_blob r index s).1
read_column r read_bytes index s = (csgdb_column_bytes r index s).1

-- The calls of a C program on one live statement.
pub data ApiCall : Type 0 where
  bind : ℤ → Bound → ApiCall
  step reset clear_bindings reset_and_clear_bindings : ApiCall
  column : Reader → ℤ → ApiCall
  column_name blob_view : ℤ → ApiCall

unfoldable pub call : (r : RawStatement) → ApiCall → CsgdbStatement r → ℕ × CsgdbStatement r
call r (ApiCall.bind index value) s = csgdb_bind r index value s
call r ApiCall.step s = csgdb_step r s
call r ApiCall.reset s = csgdb_reset r s
call r ApiCall.clear_bindings s = csgdb_clear_bindings r s
call r ApiCall.reset_and_clear_bindings s = csgdb_reset_and_clear_bindings r s
call r (ApiCall.column reader index) s = let s' = read_column r reader index s in (s'.last_code, s')
call r (ApiCall.column_name index) s =
    let s' = (csgdb_column_name r index s).1 in (s'.last_code, s')
call r (ApiCall.blob_view index) s =
    let (_, code, s') = csgdb_column_blob_view r true index s in (code, s')

unfoldable pub run_calls : (r : RawStatement) → List ApiCall → CsgdbStatement r → CsgdbStatement r
run_calls r [] s = s
run_calls r (c ∷ cs) s = run_calls r cs (call r c s).1

-- A pointer to a statement that may be null.
abbrev pub on_statement : {S R : Type 0} → R → Option S → (S → R × S) → R × Option S
on_statement default none operation = (default, none)
on_statement default (some s) operation = let (result, s') = operation s in (result, some s')
