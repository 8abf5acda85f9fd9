-- ===== src/Collection/Update.antt =====
-- The parameters of an UPDATE statement: it names the other columns first, and the key last.
use csgdb.Prelude.{
  ℕ, suc, ◌+◌, ◌≤◌, ◌≡◌, refl, inl, inr, Bool-cases, Bool, true, false, List, [], ◌∷◌, ◌++◌, some,
  length, arith, if◌then◌else◌,
}
use csgdb.Core.Error.{ok}
use csgdb.Core.Value.{Value}
use csgdb.Collection.{FieldSchema, CollectionSchema, update_values, position, remove}

-- The values of the fields that are a key, or that are not, in the order of the fields.
abbrev pub values_of : Bool → List FieldSchema → List Value → List Value
values_of key [] vs = []
values_of key (f ∷ fs) [] = []
values_of true (f ∷ fs) (v ∷ vs) =
    if f.primary_key then v ∷ values_of true fs vs else values_of true fs vs
values_of false (f ∷ fs) (v ∷ vs) =
    if f.primary_key then values_of false fs vs else v ∷ values_of false fs vs

abbrev pub count_keys : List FieldSchema → ℕ
count_keys [] = 0
count_keys (f ∷ fs) = (if f.primary_key then 1 else 0) + count_keys fs

no_keys :
    (fs : List FieldSchema) (vs : List Value)
    → count_keys fs ≡ 0
    → length vs ≡ length fs
    → (values_of false fs vs ≡ vs) × (values_of true fs vs ≡ [])
no_keys [] [] h l = (refl, refl)
no_keys [] (v ∷ vs) h l = ground arith
no_keys (f ∷ fs) [] h l = ground arith
no_keys (f ∷ fs) (v ∷ vs) h l = ground (arith, no_keys fs vs)

removed :
    (fs : List FieldSchema) (vs : List Value)
    → count_keys fs ≡ 1
    → length vs ≡ length fs
    → (n : ℕ) × (key : Value) × (position fs ≡ some n)
      × (suc n ≤ length vs)
      × (remove n vs ≡ some (key, values_of false fs vs))
      × (values_of true fs vs ≡ key ∷ [])
removed [] vs h l = absurd (omega (arith, h))
removed (f ∷ fs) [] h l = absurd (omega (arith, l))
removed (f ∷ fs) (v ∷ vs) h l = elim (Bool-cases f.primary_key) [
  | inl p ↦
      let rest = no_keys fs vs (ground (arith, p, h)) (omega (arith, l)) in
      (0, v, ground (arith, p), omega arith, ground (arith, p, rest.0), ground (arith, p, rest.1))
  | inr p ↦
      let (n, key, at, small, others, its) =
        removed fs vs (ground (arith, p, h)) (omega (arith, l)) in
      (
        suc n,
        key,
        ground (arith, p, at),
        omega (arith, small),
        ground (arith, p, others),
        ground (arith, p, its),
      )
]

-- For a schema with one key field and a record that yields one value for each field: the parameters
-- are the values of the other fields, in the order of the schema, and then that of the key.
pub update_values-key_last :
    (schema : CollectionSchema) (vs : List Value)
    → count_keys schema.fields ≡ 1
    → length vs ≡ length schema.fields
    → update_values schema (ok vs)
      ≡ ok (values_of false schema.fields vs ++ values_of true schema.fields vs)
unfolding update_values
update_values-key_last schema vs h l =
    let (n, key, at, small, others, its) = removed schema.fields vs h l in
    ground (arith, at, small, others, its)
