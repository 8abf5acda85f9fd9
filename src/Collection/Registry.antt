-- ===== src/Collection/Registry.antt =====
-- crates/csgdb/src/collection.rs: the registry of schemas and migrations, and the comparison of a schema
-- with its table.
pub mod Found
pub mod Physical
pub mod Indexes
pub mod Migrate
mod Examples
use csgdb.Prelude.{
  ℕ, ◌+◌, ◌^◌, Bool, true, false, not, ◌&&◌, ◌||◌, List, [], ◌∷◌, Option, none, some, Str, str,
  str_eq, length, ltb, leb, ◌==◌, if◌then◌else◌,
}
use csgdb.Prelude.Int.{ℤ, pos, negsuc}
use csgdb.Core.Error.{
  Result, ok, err, reject_if, ◌>>◌, ◌>>=◌, ErrorCode, schema_mismatch, migration_mismatch,
  invalid_column_index, invalid_column_type,
}
use csgdb.Core.Value.{ValueRef}
use csgdb.Collection.{
  ColumnType, FieldSchema, CollectionSchema, valid_name, is_empty, integer, real, text, blob,
}
use csgdb.Collection.Rows.{
  Row, Transaction, find_migration_sql, find_registered_schema_sql, find_table_owner_sql,
  fingerprint_from_slice, get_blob, get_i64, get_text, insert_migration_sql,
  insert_registered_schema_sql, nonzero, table_columns_sql, u32_from, update_registered_schema_sql,
}

pub record RegisteredSchema : Type 0 where
  pub collection_id : Str
  pub table_name : Str
  pub version : ℕ
  pub fingerprint : Str
  pub canonical_descriptor : Str

abbrev bad_row : RegisteredSchema → Bool
bad_row r = not (valid_name r.table_name) || r.version == 0 || is_empty r.canonical_descriptor

-- One row of the registry.
unfoldable pub registered_row : Str → Row → Result RegisteredSchema
unfolding get_i64 get_text get_blob fingerprint_from_slice
registered_row collection_id row = get_text 0 row >>= λ table_name.
    get_i64 1 row >>= u32_from schema_mismatch >>= λ version.
    get_blob 2 row >>= fingerprint_from_slice >>= λ fingerprint.
    get_text 3 row >>= λ canonical_descriptor.
    let r : RegisteredSchema = record {
      collection_id = collection_id;
      table_name = table_name;
      version = version;
      fingerprint = fingerprint;
      canonical_descriptor = canonical_descriptor;
    } in
    reject_if (bad_row r) schema_mismatch >> ok r

abbrev registered_rows : Str → List (Result Row) → Result (Option RegisteredSchema)
registered_rows collection_id [] = ok none
registered_rows collection_id (step ∷ steps) =
    step >>= λ row. registered_row collection_id row >>= λ r. ok (some r)

abbrev pub schema_columns : CollectionSchema → List ValueRef
schema_columns schema =
    ValueRef.text schema.table
    ∷ ValueRef.integer (pos schema.version)
    ∷ ValueRef.blob schema.fingerprint
    ∷ ValueRef.text schema.canonical_descriptor
    ∷ []

pub record RegisteredMigration : Type 0 where
  pub from_version : ℕ
  pub to_version : ℕ
  pub from_fingerprint : Str
  pub to_fingerprint : Str

unfoldable pub migration_row : Row → Result RegisteredMigration
unfolding get_i64 get_blob fingerprint_from_slice
migration_row row = get_i64 0 row >>= u32_from migration_mismatch >>= λ from_version.
    get_i64 1 row >>= u32_from migration_mismatch >>= λ to_version.
    get_blob 2 row >>= fingerprint_from_slice >>= λ from_fingerprint.
    get_blob 3 row >>= fingerprint_from_slice >>= λ to_fingerprint. ok (record {
      from_version = from_version;
      to_version = to_version;
      from_fingerprint = from_fingerprint;
      to_fingerprint = to_fingerprint;
    })

-- No row may follow, and a step for it may fail.
abbrev only_migration :
    List (Result Row) → RegisteredMigration → Result (Option RegisteredMigration)
only_migration [] m = ok (some m)
only_migration (step ∷ steps) m = step >>= λ row. err migration_mismatch

abbrev migration_rows : List (Result Row) → Result (Option RegisteredMigration)
migration_rows [] = ok none
migration_rows (step ∷ steps) = step >>= λ row. migration_row row >>= only_migration steps

abbrev pub migration_columns : CollectionSchema → CollectionSchema → List ValueRef
migration_columns from to =
    ValueRef.integer (pos from.version)
    ∷ ValueRef.integer (pos to.version)
    ∷ ValueRef.blob from.fingerprint
    ∷ ValueRef.blob to.fingerprint
    ∷ []

unfoldable pub ensure_migration_matches :
    RegisteredMigration → CollectionSchema → CollectionSchema → Result (Unit {0})
ensure_migration_matches actual from to =
    reject_if
      (not (
        actual.from_version == from.version
        && actual.to_version == to.version
        && str_eq actual.from_fingerprint from.fingerprint
        && str_eq actual.to_fingerprint to.fingerprint))
      migration_mismatch

unfoldable pub ensure_registered_schema_matches :
    CollectionSchema → RegisteredSchema → Result (Unit {0})
ensure_registered_schema_matches expected registered =
    reject_if
      (not (
        str_eq registered.collection_id expected.id
        && str_eq registered.table_name expected.table
        && registered.version == expected.version
        && str_eq registered.fingerprint expected.fingerprint
        && str_eq registered.canonical_descriptor expected.canonical_descriptor))
      schema_mismatch

pub record PhysicalColumn : Type 0 where
  pub name : Str
  pub declared_type : Str
  pub not_null : Bool
  pub primary_key : Bool

unfoldable pub column_row : Row → Result PhysicalColumn
unfolding get_i64 get_text
column_row row = get_text 0 row >>= λ name. get_text 1 row >>= λ declared_type.
    get_i64 2 row >>= λ not_null. get_i64 3 row >>= λ primary_key. ok (record {
      name = name;
      declared_type = declared_type;
      not_null = nonzero not_null;
      primary_key = nonzero primary_key;
    })

unfoldable pub column_rows : List (Result Row) → Result (List PhysicalColumn)
column_rows [] = ok []
column_rows (step ∷ steps) = step >>= λ row.
    column_row row >>= λ column. column_rows steps >>= λ columns. ok (column ∷ columns)

abbrev lower : ℕ → ℕ
lower byte = if leb 65 byte && leb byte 90 then byte + 32 else byte

unfoldable pub eq_ignore_ascii_case : Str → Str → Bool
eq_ignore_ascii_case [] [] = true
eq_ignore_ascii_case (a ∷ s) (b ∷ t) = lower a == lower b && eq_ignore_ascii_case s t
eq_ignore_ascii_case _ _ = false

unfoldable pub sql_name : ColumnType → Str
sql_name integer = str "INTEGER"
sql_name real = str "REAL"
sql_name text = str "TEXT"
sql_name blob = str "BLOB"

abbrev pub find_column : Str → List PhysicalColumn → Option PhysicalColumn
find_column name [] = none
find_column name (c ∷ cs) = if str_eq c.name name then some c else find_column name cs

abbrev pub column_matches : FieldSchema → PhysicalColumn → Bool
column_matches f c =
    eq_ignore_ascii_case c.declared_type (sql_name f.column_type)
    && (if c.not_null then not f.nullable else f.nullable)
    && (if c.primary_key then f.primary_key else not f.primary_key)

abbrev pub check_column : FieldSchema → Option PhysicalColumn → Result (Unit {0})
check_column f none = err schema_mismatch
check_column f (some c) = reject_if (not (column_matches f c)) schema_mismatch

unfoldable pub check_columns : List FieldSchema → List PhysicalColumn → Result (Unit {0})
check_columns [] actual = ok tt
check_columns (f ∷ fs) actual =
    check_column f (find_column f.column actual) >> check_columns fs actual

abbrev owner_rows : List (Result Row) → Result (Unit {0})
owner_rows [] = err schema_mismatch
owner_rows (step ∷ steps) =
    step >>= λ row. get_i64 0 row >>= λ count. reject_if (nonzero count) schema_mismatch

module _ (t : Transaction) where
  open t use {Tx, query, execute}

  abbrev pub done : Result ℕ × Tx → Result (Unit {0}) × Tx
  done (r, tx) = (r >>= λ changed. ok tt, tx)

  abbrev changed_one : Result ℕ × Tx → Result (Unit {0}) × Tx
  changed_one (r, tx) = (r >>= λ changed. reject_if (not (changed == 1)) migration_mismatch, tx)

  unfoldable pub find_registered_schema : Str → Tx → Result (Option RegisteredSchema)
  unfolding registered_row
  find_registered_schema collection_id tx =
      query find_registered_schema_sql (ValueRef.text collection_id ∷ []) tx
      >>= registered_rows collection_id

  unfoldable pub insert_registered_schema : CollectionSchema → Tx → Result (Unit {0}) × Tx
  insert_registered_schema schema tx =
      done
        (execute insert_registered_schema_sql (ValueRef.text schema.id ∷ schema_columns schema) tx)

  unfoldable pub update_registered_schema : CollectionSchema → Tx → Result (Unit {0}) × Tx
  update_registered_schema schema tx =
      changed_one
        (execute update_registered_schema_sql (ValueRef.text schema.id ∷ schema_columns schema) tx)

  unfoldable pub find_migration : Str → Str → Tx → Result (Option RegisteredMigration)
  unfolding migration_row
  find_migration collection_id migration_id tx =
      query find_migration_sql (ValueRef.text collection_id ∷ ValueRef.text migration_id ∷ []) tx
      >>= migration_rows

  unfoldable pub insert_migration :
      Str → CollectionSchema → CollectionSchema → Tx → Result (Unit {0}) × Tx
  insert_migration migration_id from to tx = done (
      execute insert_migration_sql
        (ValueRef.text from.id ∷ ValueRef.text migration_id ∷ migration_columns from to) tx)

  unfoldable pub ensure_table_is_unclaimed : CollectionSchema → Tx → Result (Unit {0})
  ensure_table_is_unclaimed schema tx =
      query find_table_owner_sql (ValueRef.text schema.table ∷ ValueRef.text schema.id ∷ []) tx
      >>= owner_rows

  abbrev pub table_columns : CollectionSchema → Tx → Result (List PhysicalColumn)
  table_columns schema tx =
      query table_columns_sql (ValueRef.text schema.table ∷ []) tx >>= column_rows

  unfoldable pub validate_physical_table : CollectionSchema → Tx → Result (Unit {0})
  unfolding column_rows check_columns
  validate_physical_table schema tx = table_columns schema tx >>= λ actual.
      reject_if (not (length actual == length schema.fields)) schema_mismatch
      >> check_columns schema.fields actual
