-- ===== src/Derive/Types.antt =====
-- crates/csgdb-derive/src/lib.rs: how the type of a field is stored. Errors are `none`.
use csgdb.Prelude.{
  Bool, true, false, List, [], ◌∷◌, Option, none, some, Str, str, str_eq, if◌then◌else◌,
}
use csgdb.Collection.{ColumnType, contains}

-- A step that may fail, and a test that must hold.
infixl 5 ◌>>=◌
abbrev pub ◌>>=◌ {ℓ κ} : {T : Type ℓ} {U : Type κ} (o : Option T) (next : T → Option U) → Option U
none >>= next = none
(some value) >>= next = next value

infixl 5 ◌>>◌
abbrev pub ◌>>◌ {ℓ} : {U : Type ℓ} (checked : Option (Unit {0})) (rest : Option U) → Option U
checked >> rest = checked >>= λ done. rest

abbrev pub require : Bool → Option (Unit {0})
require true = some tt
require false = none

-- A type as `syn` parses it. A path is given by its last segment, by whether it has a qualified self,
-- and by that segment's arguments: none, one type between angle brackets, or others.
pub data RustType : Type 0 where
  plain : (ident : Str) (qself : Bool) → RustType
  generic : (ident : Str) (qself : Bool) (argument : RustType) → RustType
  other_arguments : (ident : Str) (qself : Bool) → RustType
  other : RustType

abbrev simple_path : Str → Bool → Option Str
simple_path ident qself = if qself then none else some ident

abbrev pub simple_type_ident : RustType → Option Str
simple_type_ident (plain ident qself) = simple_path ident qself
simple_type_ident (generic ident qself t) = simple_path ident qself
simple_type_ident (other_arguments ident qself) = simple_path ident qself
simple_type_ident other = none

-- `generic_inner(ty, "Vec")` is a `u8`.
abbrev is_byte_vector : RustType → Bool
is_byte_vector (generic ident qself t) =
    if str_eq ident (str "Vec")
    then elim (simple_type_ident t) [ none ↦ false | some s ↦ str_eq s (str "u8") ]
    else false
is_byte_vector _ = false

abbrev integer_types : List Str
integer_types =
    str "i8"
    ∷ str "i16"
    ∷ str "i32"
    ∷ str "i64"
    ∷ str "u8"
    ∷ str "u16"
    ∷ str "u32"
    ∷ str "u64"
    ∷ str "bool"
    ∷ []

abbrev storage_of : Str → Option ColumnType
storage_of ident =
    if contains ident integer_types
    then some ColumnType.integer
    else if contains ident (str "f32" ∷ str "f64" ∷ [])
    then some ColumnType.real
    else if str_eq ident (str "String")
    then some ColumnType.text
    else none

-- `classify_type` of a type that is no `Option`.
abbrev classify_plain : RustType → Option (ColumnType × Bool)
classify_plain t =
    if is_byte_vector t
    then some (ColumnType.blob, false)
    else (simple_type_ident t >>= λ ident. storage_of ident >>= λ storage. some (storage, false))

abbrev make_nullable : Option (ColumnType × Bool) → Option (ColumnType × Bool)
make_nullable none = none
make_nullable (some (storage, true)) = none
make_nullable (some (storage, false)) = some (storage, true)

unfoldable pub classify_type : RustType → Option (ColumnType × Bool)
classify_type (generic ident qself t) =
    let inner = make_nullable (classify_type t) in
    if str_eq ident (str "Option") then inner else classify_plain (generic ident qself t)
classify_type (plain ident qself) = classify_plain (plain ident qself)
classify_type (other_arguments ident qself) = classify_plain (other_arguments ident qself)
classify_type other = none
