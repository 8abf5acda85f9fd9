-- ===== src/Derive/Expand.antt =====
-- crates/csgdb-derive/src/lib.rs: the expansion of the derive macro, which is the schema of the struct,
-- its statements and its constants. The checks and their order are those of the source; what other
-- crates do is a parameter: the digest (`sha2`), which texts parse as a path (`syn`) and the upper case
-- of a text (the standard library's `to_uppercase`).
use csgdb.Prelude.{
  ℕ, ◌^◌, Bool, true, false, not, ◌&&◌, List, [], ◌∷◌, ◌++◌, map, Option, none, some, Str, str,
  str_eq, ltb, ◌==◌, if◌then◌else◌,
}
use csgdb.Collection.{
  FieldSchema, IndexSchema, CollectionSchema, is_empty, contains, starts_with, reserved,
}
use csgdb.Derive.Types.{RustType, classify_type, ◌>>=◌, ◌>>◌, require}
use csgdb.Derive.{
  CollectionAttributes, IndexAttributes, FieldAttributes, StructField, DeriveInput,
  parse_collection_attributes, parse_field_attributes, validate_stable_name, validate_sql_name,
}
use csgdb.Derive.Sql.{
  canonical_schema, canonical_index, create_table_sql, create_index_sql, insert_sql, select_sql,
  update_sql, delete_sql, quote_identifier,
}

-- The schema of a field beside its name and type in Rust.
pub record DerivedField : Type 0 where
  pub rust_name : Str
  pub ty : RustType
  pub schema : FieldSchema

-- What the macro generates for the struct.
pub record Expansion : Type 0 where
  pub schema : CollectionSchema
  pub create_table : Str
  pub insert : Str
  pub select_by_key : Str
  pub update : Str
  pub delete_by_key : Str
  pub create_indexes : List Str
  pub constants : List Str
  pub crate_path : Str

abbrev pub derived_schema : FieldAttributes → (id column : Str) → RustType → Option FieldSchema
derived_schema a id column ty = do
  storage ← classify_type ty
  require (not (a.primary_key && storage.1))
  some (record {
    id = id;
    column = column;
    column_type = storage.0;
    nullable = storage.1;
    primary_key = a.primary_key;
  })

-- One turn of the loop over the struct's fields.
abbrev pub derive_field : StructField → (ids columns : List Str) → Option FieldSchema
derive_field f ids columns = do
  a ← parse_field_attributes f.metas
  id ← a.id
  column ← a.column
  validate_stable_name id
  validate_sql_name column false
  require (not (contains id ids))
  require (not (contains column columns))
  derived_schema a id column f.ty

unfoldable pub derive_fields :
    List StructField → (ids columns : List Str) → Option (List DerivedField)
derive_fields [] ids columns = some []
derive_fields (f ∷ fs) ids columns = do
  schema ← derive_field f ids columns
  rest ← derive_fields fs (schema.id ∷ ids) (schema.column ∷ columns)
  some (record { rust_name = f.rust_name; ty = f.ty; schema = schema } ∷ rest)

abbrev pub schemas : List DerivedField → List FieldSchema
schemas = map (λ f. f.schema)

-- The key fields, in order.
abbrev pub key_fields : List DerivedField → List DerivedField
key_fields [] = []
key_fields (f ∷ fs) = if f.schema.primary_key then f ∷ key_fields fs else key_fields fs

abbrev pub the_only : List DerivedField → Option DerivedField
the_only [] = none
the_only (f ∷ []) = some f
the_only (f ∷ g ∷ fs) = none

unfoldable pub find_field : Str → List FieldSchema → Option FieldSchema
find_field id [] = none
find_field id (f ∷ fs) = if str_eq f.id id then some f else find_field id fs

-- The columns of an index's fields, each beside the field.
unfoldable pub index_columns :
    List FieldSchema → List Str → (seen : List Str) → Option (List (Str × Str))
index_columns fields [] seen = some []
index_columns fields (id ∷ ids) seen = do
  require (not (contains id seen))
  field ← find_field id fields
  rest ← index_columns fields ids (id ∷ seen)
  some ((id, field.column) ∷ rest)

-- `r#` before a raw identifier.
abbrev strip_raw : Str → Str
strip_raw (c ∷ d ∷ name) = if c == 114 && d == 35 then name else c ∷ d ∷ name
strip_raw name = name

abbrev pub index_statements : (table : Str) → List IndexSchema → List Str
index_statements table [] = []
index_statements table (i ∷ is) =
    create_index_sql table i.name i.columns i.unique ∷ index_statements table is

abbrev pub expansion_of :
    CollectionSchema → (key : Str) (constants : List Str) (path : Str) → Expansion
expansion_of schema key constants path =
    let table = quote_identifier schema.table in
    record {
      schema = schema;
      create_table = create_table_sql table schema.fields;
      insert = insert_sql table schema.fields;
      select_by_key = select_sql table schema.fields key;
      update = update_sql table schema.fields key;
      delete_by_key = delete_sql table key;
      create_indexes = index_statements table schema.indexes;
      constants = constants;
      crate_path = path;
    }

abbrev pub crate_path_of : (is_path : Str → Bool) → Option Str → Option Str
crate_path_of is_path none = some (str "::csgdb")
crate_path_of is_path (some path) = require (is_path path) >> some path

module _ (to_uppercase : Str → Str) where
  abbrev pub field_constant_name : Str → Str
  field_constant_name rust_name = str "FIELD_" ++ to_uppercase (strip_raw rust_name)

  unfoldable pub field_constants : List DerivedField → (generated : List Str) → Option (List Str)
  field_constants [] generated = some []
  field_constants (f ∷ fs) generated =
      let name = field_constant_name f.rust_name in
      require (not (contains name generated))
      >> (field_constants fs (name ∷ generated) >>= λ rest. some (name ∷ rest))

module _ (digest : Str → Str) where
  abbrev pub derived_index :
      (collection table : Str) → IndexAttributes → (id name : Str) → List (Str × Str) → IndexSchema
  derived_index collection table a id name columns =
      let canonical = canonical_index collection table id name a.unique columns in
      record {
        id = id;
        name = name;
        columns = map (λ c. c.1) columns;
        unique = a.unique;
        fingerprint = digest canonical;
        canonical_descriptor = canonical;
      }

  -- One turn of the loop over the index declarations.
  abbrev pub derive_index :
      (collection table : Str)
      → List FieldSchema
      → IndexAttributes
      → (ids names : List Str) → Option IndexSchema
  derive_index collection table fields a ids names = do
    id ← a.id
    name ← a.name
    validate_stable_name id
    validate_sql_name name false
    require (not (starts_with reserved name))
    require (not (contains id ids))
    require (not (contains name names))
    require (not (is_empty a.fields))
    columns ← index_columns fields a.fields []
    some (derived_index collection table a id name columns)

  unfoldable pub derive_indexes :
      (collection table : Str)
      → List FieldSchema
      → List IndexAttributes
      → (ids names : List Str) → Option (List IndexSchema)
  derive_indexes collection table fields [] ids names = some []
  derive_indexes collection table fields (a ∷ rest_of) ids names = do
    index ← derive_index collection table fields a ids names
    rest ← derive_indexes collection table fields rest_of (index.id ∷ ids) (index.name ∷ names)
    some (index ∷ rest)

  abbrev pub schema_of :
      (collection table : Str) (version : ℕ)
      → List FieldSchema
      → List IndexSchema
      → CollectionSchema
  schema_of collection table version fields indexes =
      let canonical = canonical_schema collection table version fields in
      record {
        id = collection;
        table = table;
        version = version;
        fingerprint = digest canonical;
        fields = fields;
        canonical_descriptor = canonical;
        indexes = indexes;
      }

module _ (digest : Str → Str) (is_path : Str → Bool) (to_uppercase : Str → Str) where
  -- The part of the expansion after the struct's own attributes.
  abbrev pub expand_fields :
      CollectionAttributes
      → (collection table : Str) (version : ℕ) → List StructField
      → Option Expansion
  expand_fields a collection table version named_fields = do
    require (not (is_empty named_fields))
    fields ← derive_fields named_fields [] []
    key ← the_only (key_fields fields)
    indexes ← derive_indexes digest collection table (schemas fields) a.indexes [] []
    path ← crate_path_of is_path a.crate_path
    constants ← field_constants to_uppercase fields []
    some (
        expansion_of (schema_of digest collection table version (schemas fields) indexes)
          key.schema.column constants path)

  unfoldable pub expand_collection : DeriveInput → Option Expansion
  expand_collection input = do
    require (not input.is_generic)
    a ← parse_collection_attributes input.metas
    collection ← a.id
    table ← a.table
    version ← a.version
    require (ltb version (2 ^ 32))
    validate_stable_name collection
    validate_sql_name table true
    require (not (version == 0))
    named_fields ← input.named_fields
    expand_fields a collection table version named_fields
