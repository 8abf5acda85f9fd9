-- ===== src/Derive/Passes/Steps.antt =====
-- crates/csgdb-derive/src/lib.rs: what the single checks of the derive macro say of what they let through.
use csgdb.Prelude.{◌≡◌, refl, Bool, true, false, not, ◌&&◌, Option, none, some, Str, arith}
use csgdb.Collection.{FieldSchema, Seen, bad_names, valid_name, starts_with, reserved, contains}
use csgdb.Derive.{StructField, validate_stable_name, validate_sql_name, parse_field_attributes}
use csgdb.Derive.Types.{classify_type, ◌>>=◌, ◌>>◌, require}
use csgdb.Derive.Expand.{derive_field}

-- What a step that gave a result was given.
pub >>=-eq-some {ℓ κ} :
    {T : Type ℓ} {U : Type κ} (o : Option T) (next : T → Option U) {end : U}
    → (o >>= next) ≡ some end
    → (value : T) × (o ≡ some value) × (next value ≡ some end)
>>=-eq-some none next done = cc
>>=-eq-some (some value) next done = (value, refl, done)

pub require-some {ℓ} :
    {U : Type ℓ} (test : Bool) (rest : Option U) {end : U}
    → (require test >> rest) ≡ some end
    → (test ≡ true) × (rest ≡ some end)
require-some true rest done = (refl, done)
require-some false rest done = cc

pub validate_stable_name-valid :
    (s : Str) (u : Unit) → validate_stable_name s ≡ some u → valid_name s ≡ true
unfolding validate_stable_name valid_name
validate_stable_name-valid s u h = ground (arith, h)

pub validate_sql_name-valid :
    (s : Str) (is_table : Bool) (u : Unit)
    → validate_sql_name s is_table ≡ some u
    → (valid_name s ≡ true) × (is_table && starts_with reserved s ≡ false)
unfolding validate_sql_name
validate_sql_name-valid s is_table u h =
    let (v, named, h₁) = >>=-eq-some (validate_stable_name s) _ h in
    (validate_stable_name-valid s v named, ground (arith, h₁))

-- A field that the macro takes is new, has valid names, and is no key that can be null.
pub derive_field-new :
    (f : StructField) (seen : Seen) (schema : FieldSchema)
    → derive_field f seen.ids seen.columns ≡ some schema
    → (bad_names schema seen ≡ false) × (schema.primary_key && schema.nullable ≡ false)
derive_field-new f seen schema h =
    let (a, _, h₁) = >>=-eq-some (parse_field_attributes f.metas) _ h in
    let (id, _, h₂) = >>=-eq-some a.id _ h₁ in
    let (column, _, h₃) = >>=-eq-some a.column _ h₂ in
    let (u, stable, h₄) = >>=-eq-some (validate_stable_name id) _ h₃ in
    let (v, named, h₅) = >>=-eq-some (validate_sql_name column false) _ h₄ in
    let (new_id, h₆) = require-some (not (contains id seen.ids)) _ h₅ in
    let (new_column, h₇) = require-some (not (contains column seen.columns)) _ h₆ in
    let (storage, _, h₈) = >>=-eq-some (classify_type f.ty) _ h₇ in
    let (key, h₉) = require-some (not (a.primary_key && storage.1)) _ h₈ in
    let names = validate_stable_name-valid id u stable in
    let columns = validate_sql_name-valid column false v named in
    (ground (arith, h₉, names, columns, new_id, new_column), ground (arith, h₉, key))
