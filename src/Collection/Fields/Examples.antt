-- ===== src/Collection/Fields/Examples.antt =====
-- Bytes, and optional bytes, written and read.
use csgdb.Prelude.{◌<◌, ◌^◌, ◌≡◌, refl, true, none}
use csgdb.Prelude.Int.{pos}
use csgdb.Core.Error.{ok, err, invalid_field_value}
use csgdb.Core.Value.{ValueRef}
use csgdb.Collection.Fields.{
  in_signed, signed_integer, unsigned_integer, bool_field, string_field, bytes_field, option_field,
}
use csgdb.Collection.Fields.RoundTrip.{
  RoundTrips, OptionOf, fields-RoundTrip, option_field-RoundTrips,
}

too_large : (unsigned_integer 8).from_value (ValueRef.integer (pos 256)) ≡ err invalid_field_value
unfolding unsigned_integer
too_large = refl

absent : (option_field (unsigned_integer 8)).from_value ValueRef.null ≡ ok none
unfolding option_field
absent = refl

fields-RoundTrip_example :
    RoundTrips (signed_integer 8) (λ x. in_signed 8 x ≡ true)
    × RoundTrips (unsigned_integer 8) (λ x. x < 2 ^ 8)
    × RoundTrips bool_field (λ x. Unit {0})
    × RoundTrips string_field (λ x. Unit {0})
    × RoundTrips bytes_field (λ x. Unit {0})
fields-RoundTrip_example = fields-RoundTrip 8

option_field-RoundTrips_example : RoundTrips (option_field string_field) (OptionOf (λ x. Unit {0}))
unfolding string_field
option_field-RoundTrips_example =
    option_field-RoundTrips string_field (λ x. Unit {0}) (fields-RoundTrip 8).3 (λ x h. cc)
