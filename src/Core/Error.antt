-- ===== src/Core/Error.antt =====
-- crates/csgdb-core/src/error.rs: the error codes and fallible results.
-- An error is its code: the message beside it is a fixed diagnostic that no code reads.
use csgdb.Prelude.{◌≡◌, refl, Bool, true, false}

pub data ErrorCode : Type 0 where
  invalid_open_flags invalid_vfs invalid_fault_rule invalid_key_length : ErrorCode
  invalid_path invalid_sql parameter_count_mismatch invalid_parameter_index : ErrorCode
  invalid_column_index invalid_column_type invalid_field_value invalid_query : ErrorCode
  invalid_utf8 invalid_statement_state invalid_busy_timeout invalid_checkpoint_threshold : ErrorCode
  invalid_database_name invalid_pool_configuration invalid_schema schema_mismatch : ErrorCode
  invalid_migration migration_mismatch key_required key_store_unavailable : ErrorCode
  plaintext_requires_opt_in encryption_backend_unavailable storage_backend_unavailable
        database_busy :
      ErrorCode
  database_read_only constraint_violation invalid_database_key database_corrupt : ErrorCode
  query_interrupted read_pool_exhausted write_queue_full write_queue_timeout : ErrorCode
  connection_manager_closed connection_manager_in_use write_task_panicked reentrant_read : ErrorCode
  reentrant_write storage_write_failed storage_sync_failed storage_truncate_failed : ErrorCode
  storage : ErrorCode

pub data Result {ℓ} (A : Type ℓ) : Type ℓ where
  ok : A → Result A
  err : ErrorCode → Result A

abbrev pub is_ok {ℓ} : {T : Type ℓ} → Result T → Bool
is_ok (ok value) = true
is_ok (err code) = false

-- `if test { return Err(code) }`
abbrev pub reject_if : (test : Bool) (code : ErrorCode) → Result (Unit {0})
reject_if false code = ok tt
reject_if true code = err code

-- The `?` operator: go on with the value, or return the error.
infixl 5 ◌>>=◌
abbrev pub ◌>>=◌ {ℓ κ} : {T : Type ℓ} {U : Type κ} (r : Result T) (next : T → Result U) → Result U
(err code) >>= next = err code
(ok value) >>= next = next value

infixl 5 ◌>>◌
abbrev pub ◌>>◌ {ℓ} : {U : Type ℓ} (checked : Result (Unit {0})) (rest : Result U) → Result U
checked >> rest = checked >>= λ done. rest

-- A chain that succeeds has passed each of its steps.
pub >>=-eq-ok {ℓ κ} :
    {T : Type ℓ} {U : Type κ} (r : Result T) (next : T → Result U) {end : U}
    → (r >>= next) ≡ ok end
    → (value : T) × (r ≡ ok value) × (next value ≡ ok end)
>>=-eq-ok (err code) next done = cc
>>=-eq-ok (ok value) next done = (value, refl, done)

pub reject_if-ok {ℓ} :
    {U : Type ℓ} (test : Bool) (code : ErrorCode) (rest : Result U) {end : U}
    → (reject_if test code >> rest) ≡ ok end
    → (test ≡ false) × (rest ≡ ok end)
reject_if-ok false code rest done = (refl, done)
reject_if-ok true code rest done = cc

pub ok_inj {ℓ} : {T : Type ℓ} (one other : T) → ok one ≡ ok other → one ≡ other
ok_inj one other same = cc
