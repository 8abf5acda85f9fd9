-- ===== src/Derive/Examples.antt =====
-- The expansion of a struct of memories.
use csgdb.Prelude.{
  ℕ, ◌≡◌, refl, true, false, Bool, List, [], ◌∷◌, some, Str, str, str_eq, decimal_from,
}
use csgdb.Core.Error.{ok}
use csgdb.Collection.{FieldSchema, ColumnType, primary_key, validate_collection_schema}
use csgdb.Derive.{
  CollectionMeta, FieldMeta, IndexMeta, DeriveInput, parse_collection_attributes,
  parse_field_attributes, validate_stable_name, validate_sql_name,
}
use csgdb.Derive.Types.{plain, generic, classify_type}
use csgdb.Derive.Sql.{
  canonical_schema, canonical_index, create_table_sql, create_index_sql, insert_sql, select_sql,
  update_sql, delete_sql, quote_identifier, sorted_by_id,
}
use csgdb.Derive.Expand.{
  Expansion, derive_fields, find_field, index_columns, derive_indexes, field_constants,
  expand_collection,
}
use csgdb.Derive.Passes.{expand_collection-passes}
use csgdb.Derive.Statements.{Bound, expand_collection-Bound}
use csgdb.Derive.Descriptor.{canonical_schema_inj}

abbrev memory_input : DeriveInput
memory_input = record {
  is_generic = false;
  metas =
      CollectionMeta.collection (str "agent.memory")
      ∷ CollectionMeta.table (str "memory")
      ∷ CollectionMeta.version 1
      ∷ CollectionMeta.index (
          IndexMeta.id (str "by_text")
          ∷ IndexMeta.name (str "memory_text")
          ∷ IndexMeta.field (str "m.text")
          ∷ [])
      ∷ [];
  named_fields = some (
      record {
        rust_name = str "id";
        ty = plain (str "i64") false;
        metas =
            FieldMeta.id (str "m.id") ∷ FieldMeta.column (str "id") ∷ FieldMeta.primary_key ∷ [];
      }
      ∷ record {
        rust_name = str "r#type";
        ty = generic (str "Option") false (plain (str "String") false);
        metas = FieldMeta.id (str "m.text") ∷ FieldMeta.column (str "text") ∷ [];
      }
      ∷ []);
}

abbrev digest : Str → Str
digest s = str "digest"

abbrev is_path : Str → Bool
is_path s = true

abbrev unchanged : Str → Str
unchanged s = s

abbrev memory_fields : List FieldSchema
memory_fields =
    record {
      id = str "m.id";
      column = str "id";
      column_type = ColumnType.integer;
      nullable = false;
      primary_key = true;
    }
    ∷ record {
      id = str "m.text";
      column = str "text";
      column_type = ColumnType.text;
      nullable = true;
      primary_key = false;
    }
    ∷ []

abbrev memory_expansion : Expansion
memory_expansion = record {
  schema = record {
    id = str "agent.memory";
    table = str "memory";
    version = 1;
    fingerprint = str "digest";
    fields = memory_fields;
    canonical_descriptor =
        str
          "csgdb-schema-v1\ncollection:12:agent.memory\ntable:6:memory\nversion:1\nfield:4:m.id:2:id:Integer:0:1\nfield:6:m.text:4:text:Text:1:0\n";
    indexes =
        record {
          id = str "by_text";
          name = str "memory_text";
          columns = str "text" ∷ [];
          unique = false;
          fingerprint = str "digest";
          canonical_descriptor =
              str
                "csgdb-index-v1\ncollection:12:agent.memory\ntable:6:memory\nindex:7:by_text\nname:11:memory_text\nunique:0\nfield:6:m.text:4:text\n";
        }
        ∷ [];
  };
  create_table =
      str
        "CREATE TABLE IF NOT EXISTS \"memory\" (\"id\" INTEGER NOT NULL PRIMARY KEY, \"text\" TEXT)";
  insert = str "INSERT INTO \"memory\" (\"id\", \"text\") VALUES (?1, ?2)";
  select_by_key = str "SELECT \"id\", \"text\" FROM \"memory\" WHERE \"id\" = ?1 LIMIT 1";
  update = str "UPDATE \"memory\" SET \"text\" = ?1 WHERE \"id\" = ?2";
  delete_by_key = str "DELETE FROM \"memory\" WHERE \"id\" = ?1";
  create_indexes = str "CREATE INDEX IF NOT EXISTS \"memory_text\" ON \"memory\" (\"text\")" ∷ [];
  constants = str "FIELD_id" ∷ str "FIELD_type" ∷ [];
  crate_path = str "::csgdb";
}

memory_expands : expand_collection digest is_path unchanged memory_input ≡ some memory_expansion
unfolding expand_collection parse_collection_attributes parse_field_attributes validate_sql_name
    validate_stable_name classify_type derive_fields derive_indexes index_columns find_field
    field_constants canonical_schema canonical_index create_table_sql create_index_sql insert_sql
    select_sql update_sql delete_sql decimal_from str_eq
memory_expands = refl

expand_collection-passes_example :
    (validate_collection_schema memory_expansion.schema ≡ ok tt)
    × ((key : FieldSchema) × (primary_key memory_expansion.schema ≡ some key)
        × (memory_expansion.select_by_key
            ≡ select_sql (quote_identifier (str "memory")) memory_fields key.column)
        × (memory_expansion.update
            ≡ update_sql (quote_identifier (str "memory")) memory_fields key.column)
        × (memory_expansion.delete_by_key
            ≡ delete_sql (quote_identifier (str "memory")) key.column))
expand_collection-passes_example =
    expand_collection-passes digest is_path unchanged memory_input memory_expansion memory_expands

expand_collection-Bound_example : Bound memory_expansion
expand_collection-Bound_example =
    expand_collection-Bound digest is_path unchanged memory_input memory_expansion memory_expands

abbrev one : ℕ
one = 1

abbrev swapped : List FieldSchema
swapped = last memory_fields
  where
    last : List FieldSchema → List FieldSchema
    last (f ∷ g ∷ []) = g ∷ f ∷ []
    last fs = fs

same_descriptor :
    canonical_schema (str "agent.memory") (str "memory") one memory_fields
    ≡ canonical_schema (str "agent.memory") (str "memory") one swapped
unfolding canonical_schema decimal_from
same_descriptor = refl

canonical_schema_inj_example :
    (str "agent.memory" ≡ str "agent.memory")
    × (str "memory" ≡ str "memory")
    × (one ≡ one)
    × (sorted_by_id memory_fields ≡ sorted_by_id swapped)
canonical_schema_inj_example =
    canonical_schema_inj (str "agent.memory") (str "agent.memory") (str "memory") (str "memory") one
      one memory_fields swapped same_descriptor
