-- ===== src/Collection/Fields.antt =====
-- crates/csgdb/src/collection.rs: the conversions between field types and database values. The two
-- macros for integers are functions of the type's width. A number of a signed type is an integer, of
-- an unsigned one a natural number, within the type's range. The conversion of f32 is not modelled.
pub mod RoundTrip
mod Examples
use csgdb.Prelude.{ℕ, ◌-◌, ◌^◌, Bool, true, false, Option, none, some, Str, ltb, if◌then◌else◌}
use csgdb.Prelude.Int.{ℤ, pos, negsuc}
use csgdb.Core.Error.{Result, ok, err, ◌>>=◌, invalid_column_type, invalid_field_value}
use csgdb.Core.Value.{Value, ValueRef}
use csgdb.Collection.{ColumnType}

-- The trait.
pub record FieldValue (T : Type 0) : Type 0 where
  pub column_type : ColumnType
  pub nullable : Bool
  pub to_value : T → Result Value
  pub from_value : ValueRef → Result T

-- The number is within the range of the signed type of this width.
abbrev pub in_signed : ℕ → ℤ → Bool
in_signed width (pos n) = ltb n (2 ^ (width - 1))
in_signed width (negsuc n) = ltb n (2 ^ (width - 1))

abbrev signed_from : ℕ → ValueRef → Result ℤ
signed_from width (ValueRef.integer n) = if in_signed width n then ok n else err invalid_field_value
signed_from width _ = err invalid_column_type

-- `signed_integer_field`
unfoldable pub signed_integer : ℕ → FieldValue ℤ
signed_integer width = record {
  column_type = ColumnType.integer;
  nullable = false;
  to_value = λ n. ok (Value.integer n);
  from_value = signed_from width;
}

abbrev unsigned_from : ℕ → ValueRef → Result ℕ
unsigned_from width (ValueRef.integer (pos n)) =
    if ltb n (2 ^ width) then ok n else err invalid_field_value
unsigned_from width (ValueRef.integer (negsuc n)) = err invalid_field_value
unsigned_from width _ = err invalid_column_type

-- `i64::try_from`
abbrev unsigned_to : ℕ → Result Value
unsigned_to n = if ltb n (2 ^ 63) then ok (Value.integer (pos n)) else err invalid_field_value

-- `unsigned_integer_field`
unfoldable pub unsigned_integer : ℕ → FieldValue ℕ
unsigned_integer width = record {
  column_type = ColumnType.integer;
  nullable = false;
  to_value = unsigned_to;
  from_value = unsigned_from width;
}

abbrev bool_to : Bool → Result Value
bool_to false = ok (Value.integer (pos 0))
bool_to true = ok (Value.integer (pos 1))

abbrev bool_from : ValueRef → Result Bool
bool_from (ValueRef.integer (pos ℕ.zero)) = ok false
bool_from (ValueRef.integer (pos (ℕ.suc ℕ.zero))) = ok true
bool_from (ValueRef.integer n) = err invalid_field_value
bool_from _ = err invalid_column_type

unfoldable pub bool_field : FieldValue Bool
bool_field = record {
  column_type = ColumnType.integer;
  nullable = false;
  to_value = bool_to;
  from_value = bool_from;
}

abbrev f64_from : ValueRef → Result ℕ
f64_from (ValueRef.real x) = ok x
f64_from _ = err invalid_column_type

unfoldable pub f64_field : FieldValue ℕ
f64_field = record {
  column_type = ColumnType.real;
  nullable = false;
  to_value = λ x. ok (Value.real x);
  from_value = f64_from;
}

abbrev string_from : ValueRef → Result Str
string_from (ValueRef.text s) = ok s
string_from _ = err invalid_column_type

unfoldable pub string_field : FieldValue Str
string_field = record {
  column_type = ColumnType.text;
  nullable = false;
  to_value = λ s. ok (Value.text s);
  from_value = string_from;
}

abbrev bytes_from : ValueRef → Result Str
bytes_from (ValueRef.blob b) = ok b
bytes_from _ = err invalid_column_type

unfoldable pub bytes_field : FieldValue Str
bytes_field = record {
  column_type = ColumnType.blob;
  nullable = false;
  to_value = λ b. ok (Value.blob b);
  from_value = bytes_from;
}

module _ {T : Type 0} where
  abbrev option_to : FieldValue T → Option T → Result Value
  option_to f none = ok Value.null
  option_to f (some x) = f.to_value x

  abbrev as_some : Result T → Result (Option T)
  as_some r = r >>= λ x. ok (some x)

  abbrev option_from : FieldValue T → ValueRef → Result (Option T)
  option_from f ValueRef.null = ok none
  option_from f r = as_some (f.from_value r)

  unfoldable pub option_field : FieldValue T → FieldValue (Option T)
  option_field f = record {
    column_type = f.column_type;
    nullable = true;
    to_value = option_to f;
    from_value = option_from f;
  }
