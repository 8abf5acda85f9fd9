-- ===== src/Collection/Registry/Examples.antt =====
-- An engine with one row in its registry of schemas and one table, that of the memories.
use csgdb.Prelude.{
  ◌≡◌, refl, sym, ℕ, List, [], ◌∷◌, map, some, Str, str, str_eq, str_eq_refl, length, arith, All,
  if◌then◌else◌,
}
use csgdb.Prelude.Int.{pos}
use csgdb.Core.Error.{Result, ok}
use csgdb.Core.Value.{ValueRef}
use csgdb.Collection.{CollectionSchema, valid_name, validate_collection_schema}
use csgdb.Collection.Examples.{memory}
use csgdb.Collection.Rows.{
  RegistrySql, find_registered_schema_sql, insert_registered_schema_sql, table_columns_sql, Row,
  Transaction, value_ref, get_i64, get_text,
}
use csgdb.Collection.Registry.{
  RegisteredSchema, PhysicalColumn, find_registered_schema, insert_registered_schema,
  ensure_registered_schema_matches, validate_physical_table, schema_columns, column_row,
  column_rows, sql_name, eq_ignore_ascii_case, check_columns,
}
use csgdb.Collection.Registry.Found.{
  Keeps, SameEntry, find_registered_schema-insert_registered_schema,
}
use csgdb.Collection.Registry.Physical.{HasColumn, AreRows, validate_physical_table-HasColumn}

abbrev Stored : Type 0
Stored = List ValueRef

abbrev column : Str → Str → ℕ → ℕ → Result Row
column name type not_null key = ok (
    ok (ValueRef.text name)
    ∷ ok (ValueRef.text type)
    ∷ ok (ValueRef.integer (pos not_null))
    ∷ ok (ValueRef.integer (pos key))
    ∷ [])

abbrev pub memory_columns : List (Result Row)
memory_columns =
    column (str "body") (str "text") 1 0
    ∷ column (str "memory_id") (str "INTEGER") 1 1
    ∷ column (str "ns") (str "TEXT") 0 0
    ∷ []

abbrev with_id : Str → Stored → List (Result Row)
with_id id (ValueRef.text other ∷ row) = if str_eq id other then ok (map ok row) ∷ [] else []
with_id id _ = []

abbrev run_query : RegistrySql → List ValueRef → Stored → Result (List (Result Row))
run_query find_registered_schema_sql (ValueRef.text id ∷ []) row = ok (with_id id row)
run_query table_columns_sql ps row = ok memory_columns
run_query _ ps row = ok []

abbrev run_execute : RegistrySql → List ValueRef → Stored → Result ℕ × Stored
run_execute insert_registered_schema_sql ps row = (ok 1, ps)
run_execute _ ps row = (ok 0, row)

abbrev engine : Transaction
engine = record {
  Tx = Stored;
  query = run_query;
  execute = run_execute;
  execute_batch = λ batch row. (ok tt, row);
}

engine-Keeps : Keeps engine
engine-Keeps schema tx tx' n v w f h =
    let at : ValueRef.text schema.id ∷ schema_columns schema ≡ tx' = cc in
    rw (sym at) (ground (arith, str_eq_refl schema.id))

abbrev third : CollectionSchema
third = record memory { version = 3; fingerprint = str "0123456789abcdef0123456789abcdef" }

third_passes : validate_collection_schema third ≡ ok tt
unfolding validate_collection_schema valid_name str_eq
third_passes = refl

third_inserted :
    insert_registered_schema engine third []
    ≡ (ok tt, ValueRef.text third.id ∷ schema_columns third)
unfolding insert_registered_schema
third_inserted = refl

find_registered_schema-insert_registered_schema_example :
    (found : RegisteredSchema) × (find_registered_schema engine third.id
        (ValueRef.text third.id ∷ schema_columns third)
      ≡ ok (some found))
    × (ensure_registered_schema_matches third found ≡ ok tt)
    × ((other : CollectionSchema)
        → ensure_registered_schema_matches other found ≡ ok tt
        → SameEntry third other)
find_registered_schema-insert_registered_schema_example =
    find_registered_schema-insert_registered_schema engine third []
      (ValueRef.text third.id ∷ schema_columns third) engine-Keeps third_passes (omega arith) refl
      third_inserted

memory_table : validate_physical_table engine memory [] ≡ ok tt
unfolding validate_physical_table column_rows column_row get_text get_i64 value_ref check_columns
    sql_name eq_ignore_ascii_case str_eq
memory_table = refl

validate_physical_table-HasColumn_example :
    (steps : List (Result Row)) × (columns : List PhysicalColumn) × (engine.query table_columns_sql
        (ValueRef.text memory.table ∷ [])
        []
      ≡ ok steps)
    × AreRows steps columns
    × (length columns ≡ length memory.fields)
    × All (HasColumn columns) memory.fields
validate_physical_table-HasColumn_example =
    validate_physical_table-HasColumn engine memory [] memory_table
