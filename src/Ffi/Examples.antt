-- ===== src/Ffi/Examples.antt =====
-- A statement of an engine that gives two rows and then the end, and rusqlite's codes.
use csgdb.Prelude.{
  ℕ, suc, ◌%◌, ◌≡◌, refl, false, List, [], ◌∷◌, none, some, str, ltb, ◌==◌, if◌then◌else◌,
}
use csgdb.Prelude.Int.{pos, negsuc}
use csgdb.Storage.Errors.{FailureCode, sqlite_failure, map_storage_error}
use csgdb.Ffi.Codes.{error_code, sqlite_range}
use csgdb.Ffi.{
  Bound, RawStatement, ready, CsgdbStatement, ApiCall, bind, step, reset, column, read_int64,
  read_text, run_calls,
}
use csgdb.Ffi.Protocol.{logged, reached, Proper, run_calls-Proper}

-- The number of rows given so far.
abbrev two_rows : RawStatement
two_rows = record {
  S = ℕ;
  is_null = λ n. false;
  step = λ n. if ltb n 2 then (100, suc n) else (101, n);
  reset = λ n. (0, 0);
  clear_bindings = λ n. (0, n);
  finalize = λ n. 0;
  bind = λ i v n. (0, n);
  column_name = λ i n. (some (str "id"), n);
  column_type = λ i n. (1, n);
  column_int = λ i n. (pos n, n);
  column_int64 = λ i n. (pos n, n);
  column_double = λ i n. (0, n);
  column_text = λ i n. (none, n);
  column_blob = λ i n. (none, n);
  column_bytes = λ i n. (pos 0, n);
}

abbrev fresh : CsgdbStatement (logged two_rows)
fresh = record {
  raw = record { inner = 0; log = [] };
  state = ready;
  parameter_count = 1;
  column_count = 1;
  last_code = 0;
}

-- With a late bind, a step after the end, and a column that does not exist.
abbrev program : List ApiCall
program =
    bind (pos 1) Bound.null
    ∷ step
    ∷ column read_int64 (pos 0)
    ∷ column read_text (pos 4)
    ∷ bind (pos 1) Bound.null
    ∷ step
    ∷ step
    ∷ step
    ∷ reset
    ∷ bind (negsuc 0) Bound.null
    ∷ step
    ∷ []

run_calls-Proper_example :
    let s' = run_calls (logged two_rows) program fresh in
    (s'.state ≡ reached s'.raw.log) × Proper 1 1 s'.raw.log
run_calls-Proper_example = run_calls-Proper two_rows program fresh refl refl

abbrev failure_of : ℕ → FailureCode
failure_of r =
    let code = r % 256 in
    if code == 5
    then FailureCode.busy
    else if code == 6
    then FailureCode.locked
    else if code == 8
    then FailureCode.read_only
    else if code == 9
    then FailureCode.interrupted
    else if code == 11
    then FailureCode.corrupt
    else if code == 19
    then FailureCode.constraint
    else if code == 26
    then FailureCode.not_a_database
    else FailureCode.other

-- A range error.
range_differs :
    error_code (map_storage_error (sqlite_failure (failure_of sqlite_range) sqlite_range)) ≡ 10
unfolding error_code map_storage_error
range_differs = refl
