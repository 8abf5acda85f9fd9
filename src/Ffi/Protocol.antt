-- ===== src/Ffi/Protocol.antt =====
-- crates/csgdb-ffi/src/lib.rs: the order in which the C interface calls the engine's statement. The
-- engine is any engine; each of its calls is written down beside it, the newest first.
use csgdb.Prelude.{
  ℕ, ◌≤◌, ◌<◌, ◌≡◌, refl, sym, subst, ◌⊎◌, inl, inr, Bool, true, Bool-cases, List, [], ◌∷◌, ◌==◌,
  if◌then◌else◌, arith,
}
use csgdb.Prelude.Int.{ℤ, pos, negsuc}
use csgdb.Ffi.Codes.{sqlite_row, sqlite_done}
use csgdb.Ffi.{
  Bound, RawStatement, StatementState, ready, row, done, failed, CsgdbStatement, ApiCall, is_ready,
  in_parameters, in_columns, set_sqlite_result, statement_ready_operation, bind_value, csgdb_bind,
  csgdb_step, csgdb_reset, csgdb_clear_bindings, csgdb_reset_and_clear_bindings,
  with_column_metadata, with_row_column, csgdb_column_name, csgdb_column_type, csgdb_column_int,
  csgdb_column_int64, csgdb_column_double, csgdb_column_text, csgdb_column_blob, csgdb_column_bytes,
  Reader, read_column, csgdb_column_blob_view, call, run_calls,
}

pub data EngineCall : Type 0 where
  stepped : (result : ℕ) → EngineCall
  restarted cleared : EngineCall
  bound read named : ℤ → EngineCall

pub record Logged (S : Type 0) : Type 0 where
  pub inner : S
  pub log : List EngineCall

abbrev noted : {S T : Type 0} → EngineCall → T × S → List EngineCall → T × Logged S
noted c (result, s) log = (result, record { inner = s; log = c ∷ log })

abbrev noted_step : {S : Type 0} → ℕ × S → List EngineCall → ℕ × Logged S
noted_step (result, s) log = (result, record { inner = s; log = stepped result ∷ log })

-- The engine, with its calls written down.
abbrev pub logged : RawStatement → RawStatement
logged r = record {
  S = Logged r.S;
  is_null = λ s. r.is_null s.inner;
  step = λ s. noted_step (r.step s.inner) s.log;
  reset = λ s. noted restarted (r.reset s.inner) s.log;
  clear_bindings = λ s. noted cleared (r.clear_bindings s.inner) s.log;
  finalize = λ s. r.finalize s.inner;
  bind = λ i v s. noted (bound i) (r.bind i v s.inner) s.log;
  column_name = λ i s. noted (named i) (r.column_name i s.inner) s.log;
  column_type = λ i s. noted (read i) (r.column_type i s.inner) s.log;
  column_int = λ i s. noted (read i) (r.column_int i s.inner) s.log;
  column_int64 = λ i s. noted (read i) (r.column_int64 i s.inner) s.log;
  column_double = λ i s. noted (read i) (r.column_double i s.inner) s.log;
  column_text = λ i s. noted (read i) (r.column_text i s.inner) s.log;
  column_blob = λ i s. noted (read i) (r.column_blob i s.inner) s.log;
  column_bytes = λ i s. noted (read i) (r.column_bytes i s.inner) s.log;
}

abbrev state_of : ℕ → StatementState
state_of result =
    if result == sqlite_row then row else if result == sqlite_done then done else failed

-- Where the calls have brought the engine: the last step or restart decides.
unfoldable pub reached : List EngineCall → StatementState
reached [] = ready
reached (stepped result ∷ log) = state_of result
reached (restarted ∷ log) = ready
reached (cleared ∷ log) = reached log
reached (bound i ∷ log) = reached log
reached (read i ∷ log) = reached log
reached (named i ∷ log) = reached log

-- Parameters change only before the first step of a run and are numbered from 1; a run is stepped only
-- until it has ended; columns are read only on a row, and only those that exist.
abbrev pub Proper : (parameters columns : ℕ) → List EngineCall → Type 0
Proper ps cs [] = Unit
Proper ps cs (stepped result ∷ log) =
    ((reached log ≡ ready) ⊎ (reached log ≡ row)) × Proper ps cs log
Proper ps cs (restarted ∷ log) = Proper ps cs log
Proper ps cs (cleared ∷ log) = (reached log ≡ ready) × Proper ps cs log
Proper ps cs (bound i ∷ log) =
    (reached log ≡ ready) × ((n : ℕ) × (i ≡ pos n) × (1 ≤ n) × (n ≤ ps)) × Proper ps cs log
Proper ps cs (read i ∷ log) =
    (reached log ≡ row) × ((n : ℕ) × (i ≡ pos n) × (n < cs)) × Proper ps cs log
Proper ps cs (named i ∷ log) = ((n : ℕ) × (i ≡ pos n) × (n < cs)) × Proper ps cs log

is_ready-eq : (t : StatementState) → is_ready t ≡ true → t ≡ ready
is_ready-eq ready h = refl
is_ready-eq row h = cc
is_ready-eq done h = cc
is_ready-eq failed h = cc

parameter_at :
    (i : ℤ) (count : ℕ)
    → in_parameters i count ≡ true
    → (n : ℕ) × (i ≡ pos n) × (1 ≤ n) × (n ≤ count)
parameter_at (pos n) count h = (n, refl, ground (arith, h), ground (arith, h))
parameter_at (negsuc n) count h = cc

column_at : (i : ℤ) (count : ℕ) → in_columns i count ≡ true → (n : ℕ) × (i ≡ pos n) × (n < count)
column_at (pos n) count h = (n, refl, ground (arith, h))
column_at (negsuc n) count h = cc

module _ (r : RawStatement) (ps cs : ℕ) where
  -- The statement knows where the engine is, and all calls so far were proper.
  abbrev pub InStep : CsgdbStatement (logged r) → Type 0
  InStep s =
      (s.state ≡ reached (s.raw.log))
      × Proper ps cs (s.raw.log)
      × (s.parameter_count ≡ ps)
      × (s.column_count ≡ cs)

  csgdb_clear_bindings-InStep :
      (s : CsgdbStatement (logged r)) → InStep s → InStep (csgdb_clear_bindings (logged r) s).1
  unfolding csgdb_clear_bindings statement_ready_operation set_sqlite_result reached
  csgdb_clear_bindings-InStep s h = ground (arith, h, is_ready-eq s.state)

  csgdb_step-InStep :
      (s : CsgdbStatement (logged r)) → InStep s → InStep (csgdb_step (logged r) s).1
  unfolding csgdb_step reached
  csgdb_step-InStep s h = ground (arith, h)

  csgdb_reset-InStep :
      (s : CsgdbStatement (logged r)) → InStep s → InStep (csgdb_reset (logged r) s).1
  unfolding csgdb_reset set_sqlite_result reached
  csgdb_reset-InStep s h = ground (arith, h)

  csgdb_reset_and_clear_bindings-InStep :
      (s : CsgdbStatement (logged r))
      → InStep s
      → InStep (csgdb_reset_and_clear_bindings (logged r) s).1
  unfolding csgdb_reset_and_clear_bindings set_sqlite_result reached
  csgdb_reset_and_clear_bindings-InStep s h = ground (arith, h)

  csgdb_bind-InStep :
      (i : ℤ) (value : Bound) (s : CsgdbStatement (logged r))
      → InStep s
      → InStep (csgdb_bind (logged r) i value s).1
  unfolding csgdb_bind bind_value set_sqlite_result reached
  csgdb_bind-InStep i value s h = elim (Bool-cases (in_parameters i s.parameter_count)) [
    | inl p ↦
        let at = parameter_at i s.parameter_count p in ground (arith, h, p, at, is_ready-eq s.state)
    | inr p ↦ ground (arith, h, p)
  ]

  csgdb_column_name-InStep :
      (i : ℤ) (s : CsgdbStatement (logged r))
      → InStep s
      → InStep (csgdb_column_name (logged r) i s).1
  unfolding csgdb_column_name with_column_metadata reached
  csgdb_column_name-InStep i s h = elim (Bool-cases (in_columns i s.column_count)) [
    | inl p ↦ let at = column_at i s.column_count p in ground (arith, h, p, at)
    | inr p ↦ ground (arith, h, p)
  ]

  read_column-InStep :
      (k : Reader) (i : ℤ) (s : CsgdbStatement (logged r))
      → InStep s
      → InStep (read_column (logged r) k i s)
  unfolding read_column csgdb_column_type csgdb_column_int csgdb_column_int64 csgdb_column_double
      csgdb_column_text csgdb_column_blob csgdb_column_bytes with_row_column reached
  read_column-InStep k i s h = elim (Bool-cases (in_columns i s.column_count)) [
    | inl p ↦ let at = column_at i s.column_count p in ground (arith, h, p, at)
    | inr p ↦ ground (arith, h, p)
  ]

  csgdb_column_blob_view-InStep :
      (b : Bool) (i : ℤ) (s : CsgdbStatement (logged r))
      → InStep s
      → InStep (csgdb_column_blob_view (logged r) b i s).2
  unfolding csgdb_column_blob_view reached
  csgdb_column_blob_view-InStep b i s h = elim (Bool-cases (in_columns i s.column_count)) [
    | inl p ↦ let at = column_at i s.column_count p in ground (arith, h, p, at)
    | inr p ↦ ground (arith, h, p)
  ]

  call-InStep :
      (c : ApiCall) (s : CsgdbStatement (logged r)) → InStep s → InStep (call (logged r) c s).1
  unfolding call
  call-InStep (ApiCall.bind i value) s h = csgdb_bind-InStep i value s h
  call-InStep ApiCall.step s h = csgdb_step-InStep s h
  call-InStep ApiCall.reset s h = csgdb_reset-InStep s h
  call-InStep ApiCall.clear_bindings s h = csgdb_clear_bindings-InStep s h
  call-InStep ApiCall.reset_and_clear_bindings s h = csgdb_reset_and_clear_bindings-InStep s h
  call-InStep (ApiCall.column k i) s h = read_column-InStep k i s h
  call-InStep (ApiCall.column_name i) s h = csgdb_column_name-InStep i s h
  call-InStep (ApiCall.blob_view i) s h = csgdb_column_blob_view-InStep true i s h

  run_calls-InStep :
      (calls : List ApiCall) (s : CsgdbStatement (logged r))
      → InStep s
      → InStep (run_calls (logged r) calls s)
  unfolding run_calls
  run_calls-InStep [] s h = h
  run_calls-InStep (c ∷ calls) s h =
      run_calls-InStep calls (call (logged r) c s).1 (call-InStep c s h)

-- Whatever calls a program makes of a new statement, and whatever the engine answers, the engine's
-- statement is called in a proper order: parameters change only before the first step of a run and only
-- within their count, no step follows the end of a run before a reset, and only existing columns are read
-- and only on a row. The state of the statement is always where those calls have brought the engine.
pub run_calls-Proper :
    (r : RawStatement) (calls : List ApiCall) (s : CsgdbStatement (logged r))
    → s.state ≡ ready
    → s.raw.log ≡ []
    → let s' = run_calls (logged r) calls s in
      (s'.state ≡ reached s'.raw.log) × Proper s.parameter_count s.column_count s'.raw.log
unfolding reached
run_calls-Proper r calls s is new =
    let start : InStep r s.parameter_count s.column_count s = (
      subst (λ log. s.state ≡ reached log) (sym new) is,
      subst (Proper s.parameter_count s.column_count) (sym new) tt,
      refl,
      refl,
    ) in
    let (at, proper, _, _) = run_calls-InStep r s.parameter_count s.column_count calls s start in
    (at, proper)
