-- ===== src/Collection/Fields/RoundTrip.antt =====
-- crates/csgdb/src/collection.rs, the implementations of FieldValue: writing a field and reading it.
use csgdb.Prelude.{
  ℕ, ◌^◌, ◌<◌, ◌≡◌, refl, sym, ap, subst, Bool, true, false, Option, none, some, Str, arith,
}
use csgdb.Prelude.Int.{ℤ, pos, negsuc}
use csgdb.Core.Error.{Result, ok, ok_inj, ◌>>=◌, >>=-eq-ok}
use csgdb.Core.Value.{Value, ValueRef, as_ref}
use csgdb.Collection.Fields.{
  FieldValue, in_signed, signed_from, signed_integer, unsigned_from, unsigned_to, unsigned_integer,
  bool_to, bool_from, bool_field, string_from, string_field, bytes_from, bytes_field, option_to,
  option_from, option_field,
}

-- The engine stores 64-bit integers.
abbrev pub Storable : ValueRef → Type 0
Storable (ValueRef.integer n) = in_signed 64 n ≡ true
Storable _ = Unit

-- Reading gives back what was written, of the type's values; and a stored value that can be read is
-- one of the type's values, and is what would be written for it.
module _ {T : Type 0} where
  abbrev pub RoundTrips : FieldValue T → (T → Type 0) → Type 0
  RoundTrips f IsValue =
      ((x : T) (v : Value) → IsValue x → f.to_value x ≡ ok v → f.from_value (as_ref v) ≡ ok x)
      × ((r : ValueRef) (x : T)
          → Storable r
          → f.from_value r ≡ ok x
          → IsValue x × (v : Value) × (f.to_value x ≡ ok v) × (as_ref v ≡ r))

module _ {T : Type 0} where
  written :
      (read : ValueRef → Result T) (w v : Value) (x : T)
      → read (as_ref w) ≡ ok x
      → ok w ≡ ok v
      → read (as_ref v) ≡ ok x
  written read w v x h e = subst (λ v. read (as_ref v) ≡ ok x) (ok_inj w v e) h

unsigned_written : (x : ℕ) (v : Value) → unsigned_to x ≡ ok v → ok (Value.integer (pos x)) ≡ ok v
unsigned_written x v h = ground (arith, h)

signed_read :
    (width : ℕ) (r : ValueRef) (x : ℤ)
    → signed_from width r ≡ ok x
    → (in_signed width x ≡ true) × (r ≡ ValueRef.integer x)
signed_read width ValueRef.null x h = cc
signed_read width (ValueRef.integer n) x h = ground (arith, h)
signed_read width (ValueRef.real y) x h = cc
signed_read width (ValueRef.text s) x h = cc
signed_read width (ValueRef.blob b) x h = cc

unsigned_read :
    (width : ℕ) (r : ValueRef) (x : ℕ)
    → unsigned_from width r ≡ ok x
    → (x < 2 ^ width) × (r ≡ ValueRef.integer (pos x))
unsigned_read width ValueRef.null x h = cc
unsigned_read width (ValueRef.integer (pos n)) x h = ground (arith, h)
unsigned_read width (ValueRef.integer (negsuc n)) x h = cc
unsigned_read width (ValueRef.real y) x h = cc
unsigned_read width (ValueRef.text s) x h = cc
unsigned_read width (ValueRef.blob b) x h = cc

signed_integer-RoundTrips :
    (width : ℕ) → RoundTrips (signed_integer width) (λ x. in_signed width x ≡ true)
unfolding signed_integer as_ref
signed_integer-RoundTrips width = (
  λ x v range h. written (signed_from width) (Value.integer x) v x (ground (arith, range)) h,
  λ r x stored h.
      let (range, same) = signed_read width r x h in (range, Value.integer x, refl, sym same),
)

unsigned_integer-RoundTrips : (width : ℕ) → RoundTrips (unsigned_integer width) (λ x. x < 2 ^ width)
unfolding unsigned_integer as_ref
unsigned_integer-RoundTrips width = (
  λ x v range h.
      written (unsigned_from width) (Value.integer (pos x)) v x (ground (arith, range))
        (unsigned_written x v h),
  λ r x stored h.
      let (range, same) = unsigned_read width r x h in
      (range, Value.integer (pos x), ground (arith, subst Storable same stored), sym same),
)

bool_read :
    (r : ValueRef) (x : Bool)
    → bool_from r ≡ ok x
    → Unit {0} × (v : Value) × (bool_to x ≡ ok v) × (as_ref v ≡ r)
unfolding as_ref
bool_read ValueRef.null x h = cc
bool_read (ValueRef.integer (pos ℕ.zero)) false h = (tt, Value.integer (pos 0), refl, refl)
bool_read (ValueRef.integer (pos ℕ.zero)) true h = cc
bool_read (ValueRef.integer (pos (ℕ.suc ℕ.zero))) true h = (tt, Value.integer (pos 1), refl, refl)
bool_read (ValueRef.integer (pos (ℕ.suc ℕ.zero))) false h = cc
bool_read (ValueRef.integer (pos (ℕ.suc (ℕ.suc n)))) x h = cc
bool_read (ValueRef.integer (negsuc n)) x h = cc
bool_read (ValueRef.real y) x h = cc
bool_read (ValueRef.text s) x h = cc
bool_read (ValueRef.blob b) x h = cc

bool_write : (x : Bool) (v : Value) → bool_to x ≡ ok v → bool_from (as_ref v) ≡ ok x
unfolding as_ref
bool_write false v h = written bool_from (Value.integer (pos 0)) v false refl h
bool_write true v h = written bool_from (Value.integer (pos 1)) v true refl h

bool_field-RoundTrips : RoundTrips bool_field (λ x. Unit)
unfolding bool_field
bool_field-RoundTrips = (λ x v valid h. bool_write x v h, λ r x stored h. bool_read r x h)

string_read :
    (r : ValueRef) (x : Str)
    → string_from r ≡ ok x
    → Unit {0} × (v : Value) × (ok (Value.text x) ≡ ok v) × (as_ref v ≡ r)
unfolding as_ref
string_read ValueRef.null x h = cc
string_read (ValueRef.integer n) x h = cc
string_read (ValueRef.real y) x h = cc
string_read (ValueRef.text s) x h = (tt, Value.text x, refl, ap ValueRef.text (sym (ok_inj s x h)))
string_read (ValueRef.blob b) x h = cc

string_field-RoundTrips : RoundTrips string_field (λ x. Unit)
unfolding string_field as_ref
string_field-RoundTrips = (
  λ x v valid h. written string_from (Value.text x) v x refl h,
  λ r x stored h. string_read r x h,
)

bytes_read :
    (r : ValueRef) (x : Str)
    → bytes_from r ≡ ok x
    → Unit {0} × (v : Value) × (ok (Value.blob x) ≡ ok v) × (as_ref v ≡ r)
unfolding as_ref
bytes_read ValueRef.null x h = cc
bytes_read (ValueRef.integer n) x h = cc
bytes_read (ValueRef.real y) x h = cc
bytes_read (ValueRef.text s) x h = cc
bytes_read (ValueRef.blob b) x h = (tt, Value.blob x, refl, ap ValueRef.blob (sym (ok_inj b x h)))

bytes_field-RoundTrips : RoundTrips bytes_field (λ x. Unit)
unfolding bytes_field as_ref
bytes_field-RoundTrips =
    (λ x v valid h. written bytes_from (Value.blob x) v x refl h, λ r x stored h. bytes_read r x h)

-- For integers of every width, signed and unsigned, for booleans, texts and blobs: what is written to
-- a field is read back, and a stored value that can be read is a value of the type and is what would
-- be written for it. So no value is read under another storage class, or outside the type's range.
pub fields-RoundTrip :
    (width : ℕ)
    → RoundTrips (signed_integer width) (λ x. in_signed width x ≡ true)
      × RoundTrips (unsigned_integer width) (λ x. x < 2 ^ width)
      × RoundTrips bool_field (λ x. Unit {0})
      × RoundTrips string_field (λ x. Unit {0})
      × RoundTrips bytes_field (λ x. Unit {0})
fields-RoundTrip width = (
  signed_integer-RoundTrips width,
  unsigned_integer-RoundTrips width,
  bool_field-RoundTrips,
  string_field-RoundTrips,
  bytes_field-RoundTrips,
)

-- A field type, other than an optional one, is never written as null.
module _ {T : Type 0} where
  abbrev pub NeverNull : FieldValue T → Type 0
  NeverNull f = (x : T) → f.to_value x ≡ ok Value.null → ⊥

  abbrev pub OptionOf : (T → Type 0) → Option T → Type 0
  OptionOf IsValue none = Unit
  OptionOf IsValue (some x) = IsValue x

  option_written :
      (f : FieldValue T) (x : T) (v : Value)
      → NeverNull f
      → f.to_value x ≡ ok v
      → f.from_value (as_ref v) ≡ ok x
      → option_from f (as_ref v) ≡ ok (some x)
  unfolding as_ref
  option_written f x Value.null never h k = absurd (never x h)
  option_written f x (Value.integer n) never h k = ground (arith, k)
  option_written f x (Value.real y) never h k = ground (arith, k)
  option_written f x (Value.text s) never h k = ground (arith, k)
  option_written f x (Value.blob b) never h k = ground (arith, k)

  abbrev OptionEnd : FieldValue T → (T → Type 0) → ValueRef → Option T → Type 0
  OptionEnd f IsValue r x =
      OptionOf IsValue x × (v : Value) × (option_to f x ≡ ok v) × (as_ref v ≡ r)

  some_read :
      (f : FieldValue T) (IsValue : T → Type 0) (r : ValueRef) (x : Option T)
      → RoundTrips f IsValue
      → Storable r
      → (f.from_value r >>= λ y. ok (some y)) ≡ ok x
      → OptionEnd f IsValue r x
  some_read f IsValue r x trips stored h =
      let (y, read, same) = >>=-eq-ok (f.from_value r) _ h in
      subst (OptionEnd f IsValue r) (ok_inj (some y) x same) (trips.1 r y stored read)

  option_read :
      (f : FieldValue T) (IsValue : T → Type 0) (r : ValueRef) (x : Option T)
      → RoundTrips f IsValue
      → Storable r
      → option_from f r ≡ ok x
      → OptionEnd f IsValue r x
  unfolding as_ref
  option_read f IsValue ValueRef.null x trips stored h =
      subst (OptionEnd f IsValue ValueRef.null) (ok_inj none x h) (tt, Value.null, refl, refl)
  option_read f IsValue (ValueRef.integer n) x trips stored h =
      some_read f IsValue _ x trips stored h
  option_read f IsValue (ValueRef.real y) x trips stored h = some_read f IsValue _ x trips stored h
  option_read f IsValue (ValueRef.text s) x trips stored h = some_read f IsValue _ x trips stored h
  option_read f IsValue (ValueRef.blob b) x trips stored h = some_read f IsValue _ x trips stored h

  option_write :
      (f : FieldValue T) (IsValue : T → Type 0) (x : Option T) (v : Value)
      → RoundTrips f IsValue
      → NeverNull f
      → OptionOf IsValue x
      → option_to f x ≡ ok v
      → option_from f (as_ref v) ≡ ok x
  unfolding as_ref
  option_write f IsValue none v trips never valid h =
      written (option_from f) Value.null v none refl h
  option_write f IsValue (some x) v trips never valid h =
      option_written f x v never h (trips.0 x v valid h)

  -- If a field type round trips and is never written as null, its optional form round trips too: an
  -- absent value is null, and a present one is what the type itself writes.
  pub option_field-RoundTrips :
      (f : FieldValue T) (IsValue : T → Type 0)
      → RoundTrips f IsValue
      → NeverNull f
      → RoundTrips (option_field f) (OptionOf IsValue)
  unfolding option_field
  option_field-RoundTrips f IsValue trips never = (
    λ x v valid h. option_write f IsValue x v trips never valid h,
    λ r x stored h. option_read f IsValue r x trips stored h,
  )
