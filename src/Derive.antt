-- ===== src/Derive.antt =====
-- crates/csgdb-derive/src/lib.rs: what the derive macro makes of a struct. Its input is the struct as
-- `syn` parsed it: the attributes in order, each with its literal, and the types of the fields. A
-- compile error is `none`; its message is not modelled.
pub mod Types
pub mod Sql
pub mod Expand
pub mod Passes
pub mod Statements
pub mod Descriptor
mod Examples
use csgdb.Prelude.{
  ℕ, ◌^◌, Bool, true, false, not, ◌&&◌, ◌||◌, List, [], ◌∷◌, ◌++◌, map, Option, none, some, Str,
  str, str_eq, has_nul, length, ltb, leb, ◌==◌, if◌then◌else◌,
}
use csgdb.Collection.{is_empty, starts_with, reserved}
use csgdb.Derive.Types.{RustType, ◌>>=◌, ◌>>◌, require}

-- One entry of a struct's, an index's or a field's `csgdb` attributes.
pub data IndexMeta : Type 0 where
  id name field : Str → IndexMeta
  unique unsupported : IndexMeta

pub data CollectionMeta : Type 0 where
  collection table crate_path : Str → CollectionMeta
  version : ℕ → CollectionMeta
  index : List IndexMeta → CollectionMeta
  unsupported : CollectionMeta

pub data FieldMeta : Type 0 where
  id column : Str → FieldMeta
  primary_key unsupported : FieldMeta

pub record IndexAttributes : Type 0 where
  pub id : Option Str
  pub name : Option Str
  pub fields : List Str
  pub unique : Bool

pub record CollectionAttributes : Type 0 where
  pub id : Option Str
  pub table : Option Str
  pub version : Option ℕ
  pub crate_path : Option Str
  pub indexes : List IndexAttributes

pub record FieldAttributes : Type 0 where
  pub id : Option Str
  pub column : Option Str
  pub primary_key : Bool

pub record StructField : Type 0 where
  pub rust_name : Str
  pub ty : RustType
  pub metas : List FieldMeta

-- `named_fields` is `none` for anything but a struct with named fields.
pub record DeriveInput : Type 0 where
  pub is_generic : Bool
  pub metas : List CollectionMeta
  pub named_fields : Option (List StructField)

abbrev set_once {ℓ} : {A : Type ℓ} → Option A → A → Option (Option A)
set_once none value = some (some value)
set_once (some old) value = none

abbrev index_meta : IndexMeta → IndexAttributes → Option IndexAttributes
index_meta (IndexMeta.id s) a = set_once a.id s >>= λ v. some (record a { id = v })
index_meta (IndexMeta.name s) a = set_once a.name s >>= λ v. some (record a { name = v })
index_meta (IndexMeta.field s) a = some (record a { fields = a.fields ++ s ∷ [] })
index_meta IndexMeta.unique a = require (not a.unique) >> some (record a { unique = true })
index_meta IndexMeta.unsupported a = none

parse_index_attributes : List IndexMeta → IndexAttributes → Option IndexAttributes
parse_index_attributes [] a = some a
parse_index_attributes (m ∷ ms) a = index_meta m a >>= λ b. parse_index_attributes ms b

abbrev collection_meta : CollectionMeta → CollectionAttributes → Option CollectionAttributes
collection_meta (CollectionMeta.collection s) a =
    set_once a.id s >>= λ v. some (record a { id = v })
collection_meta (CollectionMeta.table s) a =
    set_once a.table s >>= λ v. some (record a { table = v })
collection_meta (CollectionMeta.version n) a =
    set_once a.version n >>= λ v. some (record a { version = v })
collection_meta (CollectionMeta.crate_path s) a =
    set_once a.crate_path s >>= λ v. some (record a { crate_path = v })
collection_meta (CollectionMeta.index ms) a = do
  i ← parse_index_attributes ms (record { id = none; name = none; fields = []; unique = false })
  some (record a { indexes = a.indexes ++ i ∷ [] })
collection_meta CollectionMeta.unsupported a = none

parse_collection_metas : List CollectionMeta → CollectionAttributes → Option CollectionAttributes
unfolding parse_index_attributes
parse_collection_metas [] a = some a
parse_collection_metas (m ∷ ms) a = collection_meta m a >>= λ b. parse_collection_metas ms b

unfoldable pub parse_collection_attributes : List CollectionMeta → Option CollectionAttributes
unfolding parse_collection_metas
parse_collection_attributes ms =
    parse_collection_metas ms
      (record { id = none; table = none; version = none; crate_path = none; indexes = [] })

abbrev field_meta : FieldMeta → FieldAttributes → Option FieldAttributes
field_meta (FieldMeta.id s) a = set_once a.id s >>= λ v. some (record a { id = v })
field_meta (FieldMeta.column s) a = set_once a.column s >>= λ v. some (record a { column = v })
field_meta FieldMeta.primary_key a =
    require (not a.primary_key) >> some (record a { primary_key = true })
field_meta FieldMeta.unsupported a = none

parse_field_metas : List FieldMeta → FieldAttributes → Option FieldAttributes
parse_field_metas [] a = some a
parse_field_metas (m ∷ ms) a = field_meta m a >>= λ b. parse_field_metas ms b

unfoldable pub parse_field_attributes : List FieldMeta → Option FieldAttributes
unfolding parse_field_metas
parse_field_attributes ms =
    parse_field_metas ms (record { id = none; column = none; primary_key = false })

-- 1 to 255 bytes, none of them NUL.
unfoldable pub validate_stable_name : Str → Option (Unit {0})
validate_stable_name value =
    require (not (is_empty value || ltb 255 (length value) || has_nul value))

unfoldable pub validate_sql_name : Str → (is_table : Bool) → Option (Unit {0})
unfolding validate_stable_name
validate_sql_name value is_table =
    validate_stable_name value >> require (not (is_table && starts_with reserved value))
