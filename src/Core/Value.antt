-- ===== src/Core/Value.antt =====
-- crates/csgdb-core/src/value.rs: dynamically typed values. A real is the 64 bits of its IEEE 754
-- double; nothing here computes with it. Texts and blobs are bytes.
use csgdb.Prelude.{ℕ, ◌≡◌, Str, arith}
use csgdb.Prelude.Int.{ℤ}

pub data ValueType : Type 0 where
  integer real text blob null : ValueType

pub data Value : Type 0 where
  null : Value
  integer : ℤ → Value
  real : ℕ → Value
  text : Str → Value
  blob : Str → Value

-- The borrowed form.
pub data ValueRef : Type 0 where
  null : ValueRef
  integer : ℤ → ValueRef
  real : ℕ → ValueRef
  text : Str → ValueRef
  blob : Str → ValueRef

unfoldable pub value_type : Value → ValueType
value_type Value.null = ValueType.null
value_type (Value.integer n) = ValueType.integer
value_type (Value.real x) = ValueType.real
value_type (Value.text s) = ValueType.text
value_type (Value.blob b) = ValueType.blob

unfoldable pub ref_type : ValueRef → ValueType
ref_type ValueRef.null = ValueType.null
ref_type (ValueRef.integer n) = ValueType.integer
ref_type (ValueRef.real x) = ValueType.real
ref_type (ValueRef.text s) = ValueType.text
ref_type (ValueRef.blob b) = ValueType.blob

unfoldable pub as_ref : Value → ValueRef
as_ref Value.null = ValueRef.null
as_ref (Value.integer n) = ValueRef.integer n
as_ref (Value.real x) = ValueRef.real x
as_ref (Value.text s) = ValueRef.text s
as_ref (Value.blob b) = ValueRef.blob b

unfoldable pub to_owned : ValueRef → Value
to_owned ValueRef.null = Value.null
to_owned (ValueRef.integer n) = Value.integer n
to_owned (ValueRef.real x) = Value.real x
to_owned (ValueRef.text s) = Value.text s
to_owned (ValueRef.blob b) = Value.blob b

-- A value that is borrowed and copied is the value again, and neither step changes its storage class.
pub to_owned-as_ref :
    (v : Value) (r : ValueRef)
    → (to_owned (as_ref v) ≡ v)
      × (as_ref (to_owned r) ≡ r)
      × (ref_type (as_ref v) ≡ value_type v)
      × (value_type (to_owned r) ≡ ref_type r)
unfolding to_owned as_ref ref_type value_type
to_owned-as_ref v r = (ground arith, ground arith, ground arith, ground arith)
