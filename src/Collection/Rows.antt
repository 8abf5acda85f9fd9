-- ===== src/Collection/Rows.antt =====
-- crates/csgdb/src/collection.rs and crates/csgdb-storage/src/lib.rs: the statements of the registries and the
-- rows that they give. The engine is a parameter: a transaction with its statements, named as the
-- constants that hold their SQL. A column of a row is what the adapter's `value_ref` makes of it: text
-- that is not UTF-8 is an error.
use csgdb.Prelude.{ℕ, ◌^◌, Bool, true, not, List, [], ◌∷◌, Str, length, ltb, ◌==◌, if◌then◌else◌}
use csgdb.Prelude.Int.{ℤ, pos, negsuc}
use csgdb.Core.Error.{
  Result, ok, err, ◌>>=◌, ErrorCode, schema_mismatch, invalid_column_index, invalid_column_type,
}
use csgdb.Core.Value.{ValueRef}

pub data RegistrySql : Type 0 where
  find_registered_schema_sql insert_registered_schema_sql : RegistrySql
  update_registered_schema_sql find_table_owner_sql table_columns_sql : RegistrySql
  find_migration_sql insert_migration_sql find_registered_indexes_sql : RegistrySql
  insert_registered_index_sql delete_registered_indexes_sql : RegistrySql
  physical_index_sql physical_index_columns_sql : RegistrySql

-- What `execute_batch` runs: the statement of a registry's table, or a text.
pub data Batch : Type 0 where
  schema_registry_sql index_registry_sql migration_registry_sql : Batch
  sql : Str → Batch

abbrev pub Row : Type 0
Row = List (Result ValueRef)

-- `query` prepares the statement and binds its parameters; each step of the rows may fail.
pub record Transaction : Type 1 where
  pub Tx : Type 0
  pub query : RegistrySql → List ValueRef → Tx → Result (List (Result Row))
  pub execute : RegistrySql → List ValueRef → Tx → Result ℕ × Tx
  pub execute_batch : Batch → Tx → Result (Unit {0}) × Tx

-- A database that begins a transaction and commits it or, when it is dropped, rolls it back.
pub record Database : Type 1 where
  pub engine : Transaction
  pub Db : Type 0
  pub transaction : Db → Result engine.Tx × Db
  pub commit : engine.Tx → Db → Result (Unit {0}) × Db
  pub rollback : engine.Tx → Db → Db

unfoldable pub value_ref : ℕ → Row → Result ValueRef
value_ref index [] = err invalid_column_index
value_ref ℕ.zero (value ∷ row) = value
value_ref (ℕ.suc index) (value ∷ row) = value_ref index row

abbrev pub as_i64 : ValueRef → Result ℤ
as_i64 (ValueRef.integer value) = ok value
as_i64 _ = err invalid_column_type

abbrev pub as_text : ValueRef → Result Str
as_text (ValueRef.text value) = ok value
as_text _ = err invalid_column_type

abbrev as_blob : ValueRef → Result Str
as_blob (ValueRef.blob value) = ok value
as_blob _ = err invalid_column_type

unfoldable pub get_i64 : ℕ → Row → Result ℤ
unfolding value_ref
get_i64 index row = value_ref index row >>= as_i64

unfoldable pub get_text : ℕ → Row → Result Str
unfolding value_ref
get_text index row = value_ref index row >>= as_text

unfoldable pub get_blob : ℕ → Row → Result Str
unfolding value_ref
get_blob index row = value_ref index row >>= as_blob

-- `u32::try_from`, with the error that the caller makes of a failure.
abbrev pub u32_from : ErrorCode → ℤ → Result ℕ
u32_from code (pos n) = if ltb n (2 ^ 32) then ok n else err code
u32_from code (negsuc n) = err code

unfoldable pub fingerprint_from_slice : Str → Result Str
fingerprint_from_slice bytes = if length bytes == 32 then ok bytes else err schema_mismatch

abbrev pub nonzero : ℤ → Bool
nonzero (pos n) = not (n == 0)
nonzero (negsuc n) = true
