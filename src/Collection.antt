-- ===== src/Collection.antt =====
-- crates/csgdb/src/collection.rs: the schemas of typed collections and the checks on them. A
-- fingerprint is its 32 bytes.
pub mod Fields
pub mod Valid
pub mod Rows
pub mod Registry
pub mod Update
mod Examples
use csgdb.Prelude.{
  ℕ, Bool, true, false, not, ◌&&◌, ◌||◌, List, [], ◌∷◌, Option, none, some, Str, str, str_eq,
  has_nul, length, ltb, leb, ◌==◌, ◌++◌, if◌then◌else◌,
}
use csgdb.Core.Error.{Result, ok, err, reject_if, ◌>>◌, ◌>>=◌, invalid_schema, invalid_migration}
use csgdb.Core.Value.{Value}

pub data ColumnType : Type 0 where
  integer real text blob : ColumnType

abbrev pub column_type_eq : ColumnType → ColumnType → Bool
column_type_eq integer integer = true
column_type_eq real real = true
column_type_eq text text = true
column_type_eq blob blob = true
column_type_eq _ _ = false

pub record FieldSchema : Type 0 where
  pub id : Str
  pub column : Str
  pub column_type : ColumnType
  pub nullable : Bool
  pub primary_key : Bool

pub record IndexSchema : Type 0 where
  pub id : Str
  pub name : Str
  pub columns : List Str
  pub unique : Bool
  pub fingerprint : Str
  pub canonical_descriptor : Str

pub record CollectionSchema : Type 0 where
  pub id : Str
  pub table : Str
  pub version : ℕ
  pub fingerprint : Str
  pub fields : List FieldSchema
  pub canonical_descriptor : Str
  pub indexes : List IndexSchema

abbrev pub first_primary_key : List FieldSchema → Option FieldSchema
first_primary_key [] = none
first_primary_key (f ∷ fs) = if f.primary_key then some f else first_primary_key fs

unfoldable pub primary_key : CollectionSchema → Option FieldSchema
primary_key schema = first_primary_key schema.fields

abbrev pub is_empty {ℓ} : {A : Type ℓ} → List A → Bool
is_empty [] = true
is_empty (x ∷ xs) = false

unfoldable pub valid_name : Str → Bool
valid_name value = not (is_empty value) && leb (length value) 255 && not (has_nul value)

abbrev pub starts_with : Str → Str → Bool
starts_with [] s = true
starts_with (c ∷ cs) [] = false
starts_with (c ∷ cs) (d ∷ ds) = c == d && starts_with cs ds

abbrev pub reserved : Str
reserved = str "__csgdb_"

-- A set of names: the newest first, and `insert` says whether the name is new.
abbrev pub contains : Str → List Str → Bool
contains s [] = false
contains s (t ∷ ts) = str_eq s t || contains s ts

-- The names seen so far and the number of primary keys.
pub record Seen : Type 0 where
  pub ids : List Str
  pub columns : List Str
  pub primary_keys : ℕ

-- `saturating_add` on a u8.
abbrev pub count_key : Bool → ℕ → ℕ
count_key true n = if ltb n 255 then ℕ.suc n else 255
count_key false n = n

-- The field's names are not valid, or not new.
abbrev pub bad_names : FieldSchema → Seen → Bool
bad_names f seen =
    not (valid_name f.id)
    || not (valid_name f.column)
    || contains f.id seen.ids
    || contains f.column seen.columns

abbrev pub see : FieldSchema → Seen → Seen
see f seen = record {
  ids = f.id ∷ seen.ids;
  columns = f.column ∷ seen.columns;
  primary_keys = count_key f.primary_key seen.primary_keys;
}

unfoldable pub check_fields : List FieldSchema → Seen → Result Seen
check_fields [] seen = ok seen
check_fields (f ∷ fs) seen =
    reject_if (bad_names f seen) invalid_schema
    >> (reject_if (f.primary_key && f.nullable) invalid_schema >> check_fields fs (see f seen))

unfoldable pub check_index_columns : List Str → List Str → List Str → Result (Unit {0})
check_index_columns columns [] index_columns = ok tt
check_index_columns columns (c ∷ cs) index_columns =
    reject_if (not (contains c columns) || contains c index_columns) invalid_schema
    >> check_index_columns columns cs (c ∷ index_columns)

abbrev pub bad_index : IndexSchema → List Str → List Str → Bool
bad_index i index_ids index_names =
    not (valid_name i.id)
    || not (valid_name i.name)
    || starts_with reserved i.name
    || is_empty i.columns
    || is_empty i.canonical_descriptor
    || contains i.id index_ids
    || contains i.name index_names

unfoldable pub check_indexes : List Str → List IndexSchema → List Str → List Str → Result (Unit {0})
unfolding check_index_columns
check_indexes columns [] index_ids index_names = ok tt
check_indexes columns (i ∷ is) index_ids index_names =
    reject_if (bad_index i index_ids index_names) invalid_schema
    >> (check_index_columns columns i.columns []
        >> check_indexes columns is (i.id ∷ index_ids) (i.name ∷ index_names))

abbrev pub bad_header : CollectionSchema → Bool
bad_header schema =
    not (valid_name schema.id)
    || not (valid_name schema.table)
    || starts_with reserved schema.table
    || schema.version == 0
    || is_empty schema.fields
    || is_empty schema.canonical_descriptor

abbrev pub nothing_seen : Seen
nothing_seen = record { ids = []; columns = []; primary_keys = 0 }

abbrev pub check_rest : CollectionSchema → Seen → Result (Unit {0})
check_rest schema seen =
    reject_if (not (seen.primary_keys == 1)) invalid_schema
    >> check_indexes seen.columns schema.indexes [] []

unfoldable pub validate_collection_schema : CollectionSchema → Result (Unit {0})
unfolding check_fields check_indexes
validate_collection_schema schema =
    reject_if (bad_header schema) invalid_schema
    >> (check_fields schema.fields nothing_seen >>= check_rest schema)

unfoldable pub validate_migration : CollectionSchema → CollectionSchema → Str → Result (Unit {0})
unfolding validate_collection_schema
validate_migration from to migration_id =
    validate_collection_schema from
    >> validate_collection_schema to
    >> reject_if
        (not (valid_name migration_id)
          || not (str_eq from.id to.id)
          || leb to.version from.version
          || str_eq from.fingerprint to.fingerprint)
        invalid_migration

abbrev position : List FieldSchema → Option ℕ
position [] = none
position (f ∷ fs) =
    if f.primary_key then some 0 else elim (position fs) [ none ↦ none | some n ↦ some (ℕ.suc n) ]

-- `Vec::remove`: the element and the others.
abbrev pub remove : ℕ → List Value → Option (Value × List Value)
remove n [] = none
remove ℕ.zero (v ∷ vs) = some (v, vs)
remove (ℕ.suc n) (v ∷ vs) = elim (remove n vs) [ none ↦ none | some p ↦ some (p.0, v ∷ p.1) ]

abbrev moved_to_end : Option (Value × List Value) → Result (List Value)
moved_to_end none = err invalid_schema
moved_to_end (some (key, vs)) = ok (vs ++ key ∷ [])

abbrev key_last : Option ℕ → List Value → Result (List Value)
key_last none vs = err invalid_schema
key_last (some n) vs = reject_if (leb (length vs) n) invalid_schema >> moved_to_end (remove n vs)

-- `values` is what the record's own generated code returned.
unfoldable pub update_values : CollectionSchema → Result (List Value) → Result (List Value)
update_values schema values = values >>= key_last (position schema.fields)
