-- ===== src/Collection/Examples.antt =====
-- A collection of memories: its schema, a later version, and the parameters of an update.
use csgdb.Prelude.{◌≡◌, ◌<◌, refl, true, false, List, [], ◌∷◌, str, str_eq}
use csgdb.Prelude.Int.{pos}
use csgdb.Core.Error.{ok, err, invalid_schema}
use csgdb.Core.Value.{Value}
use csgdb.Collection.{
  ColumnType, FieldSchema, IndexSchema, CollectionSchema, text, valid_name,
  validate_collection_schema, validate_migration, update_values,
}
use csgdb.Collection.Update.{update_values-key_last}
use csgdb.Collection.Valid.{Valid, validate_collection_schema-Valid, validate_migration-forward}

abbrev namespace_field : FieldSchema
namespace_field = record {
  id = str "namespace";
  column = str "ns";
  column_type = text;
  nullable = true;
  primary_key = false;
}

abbrev key_field : FieldSchema
key_field = record {
  id = str "id";
  column = str "memory_id";
  column_type = ColumnType.integer;
  nullable = false;
  primary_key = true;
}

abbrev body_field : FieldSchema
body_field = record {
  id = str "body";
  column = str "body";
  column_type = text;
  nullable = false;
  primary_key = false;
}

abbrev pub by_namespace : IndexSchema
by_namespace = record {
  id = str "by_ns";
  name = str "memory_by_ns";
  columns = str "ns" ∷ str "memory_id" ∷ [];
  unique = false;
  fingerprint = str "i1";
  canonical_descriptor = str "index";
}

abbrev pub memory : CollectionSchema
memory = record {
  id = str "agent.memory";
  table = str "memory";
  version = 1;
  fingerprint = str "f1";
  fields = namespace_field ∷ key_field ∷ body_field ∷ [];
  canonical_descriptor = str "memory v1";
  indexes = by_namespace ∷ [];
}

abbrev memory_2 : CollectionSchema
memory_2 = record memory { version = 2; fingerprint = str "f2" }

two_keys :
    validate_collection_schema
      (record memory { fields = key_field ∷ record body_field { primary_key = true } ∷ [] })
    ≡ err invalid_schema
unfolding validate_collection_schema valid_name str_eq
two_keys = refl

reserved_table :
    validate_collection_schema (record memory { table = str "__csgdb_schema" }) ≡ err invalid_schema
unfolding validate_collection_schema valid_name str_eq
reserved_table = refl

memory_passes : validate_collection_schema memory ≡ ok tt
unfolding validate_collection_schema valid_name str_eq
memory_passes = refl

migrates : validate_migration memory memory_2 (str "memory-2") ≡ ok tt
unfolding validate_migration validate_collection_schema valid_name str_eq
migrates = refl

validate_collection_schema-Valid_example : Valid memory
validate_collection_schema-Valid_example = validate_collection_schema-Valid memory memory_passes

validate_migration-forward_example :
    Valid memory
    × Valid memory_2
    × (memory.id ≡ memory_2.id)
    × (1 < 2)
    × (str_eq memory.fingerprint memory_2.fingerprint ≡ false)
    × (valid_name (str "memory-2") ≡ true)
validate_migration-forward_example =
    validate_migration-forward memory memory_2 (str "memory-2") migrates

abbrev row : List Value
row = Value.null ∷ Value.integer (pos 7) ∷ Value.text (str "hi") ∷ []

update_values-key_last_example :
    update_values memory (ok row)
    ≡ ok (Value.null ∷ Value.text (str "hi") ∷ Value.integer (pos 7) ∷ [])
update_values-key_last_example = update_values-key_last memory row refl refl
