-- ===== src/Derive/Passes.antt =====
-- Every schema that the derive macro accepts passes the library's own check of schemas
-- (crates/csgdb-derive/src/lib.rs against crates/csgdb/src/collection.rs).
pub mod Steps
pub mod Indexes
use csgdb.Prelude.{
  has_nul, ap, ◌^◌, str_eq_refl, str_eq_sym, sym, ◌∙◌, subst, ℕ, ◌+◌, ◌≤◌, min, ◌≡◌, refl, inl, inr,
  Bool-cases, Bool, true, false, not, ◌&&◌, ◌||◌, List, [], ◌∷◌, ◌++◌, map, Option, none, some, Str,
  str_eq, str_eq_sound, arith, All, ◌==◌, ltb, length,
}
use csgdb.Core.Error.{ok}
use csgdb.Collection.{
  bad_index, FieldSchema, IndexSchema, CollectionSchema, Seen, bad_names, see, valid_name, is_empty,
  starts_with, reserved, contains, check_fields, nothing_seen, check_index_columns, check_indexes,
  validate_collection_schema, primary_key, first_primary_key,
}
use csgdb.Collection.Update.{count_keys}
use csgdb.Collection.Valid.{
  Checked, check_fields-ok, Distinct, columns, Valid, validate_collection_schema-Valid,
}
use csgdb.Derive.{
  IndexAttributes, StructField, DeriveInput, CollectionAttributes, validate_stable_name,
  validate_sql_name, parse_collection_attributes, parse_field_attributes,
}
use csgdb.Derive.Types.{RustType, classify_type, ◌>>=◌, ◌>>◌, require}
use csgdb.Derive.Sql.{canonical_schema, quote_identifier, select_sql, update_sql, delete_sql}
use csgdb.Derive.Expand.{
  expansion_of, field_constants, crate_path_of, schema_of, DerivedField, Expansion, derive_field,
  derive_fields, schemas, key_fields, the_only, find_field, index_columns, derive_index,
  derive_indexes, expand_fields, expand_collection,
}
use csgdb.Derive.Passes.Steps.{
  derive_field-new, validate_stable_name-valid, validate_sql_name-valid, >>=-eq-some, require-some,
}
use csgdb.Derive.Passes.Indexes.{derive_indexes-pass, check_indexes-same}

derive_fields-pass :
    (fs : List StructField) (seen : Seen) (derived : List DerivedField)
    → derive_fields fs seen.ids seen.columns ≡ some derived
    → (seen' : Seen) × (check_fields (schemas derived) seen ≡ ok seen')
unfolding derive_fields check_fields
derive_fields-pass [] seen derived h = (seen, ground (arith, h))
derive_fields-pass (f ∷ fs) seen derived h =
    let (schema, here, h₁) = >>=-eq-some (derive_field f seen.ids seen.columns) _ h in
    let (rest, later, h₂) =
      >>=-eq-some (derive_fields fs (schema.id ∷ seen.ids) (schema.column ∷ seen.columns)) _ h₁ in
    let (seen', passed) = derive_fields-pass fs (see schema seen) rest later in
    let (new, key) = derive_field-new f seen schema here in
    (seen', ground (arith, h₂, new, key, passed))

canonical_schema-some :
    (collection table : Str) (version : ℕ) (fields : List FieldSchema)
    → is_empty (canonical_schema collection table version fields) ≡ false
unfolding canonical_schema
canonical_schema-some collection table version fields = refl

count_keys-length : (fs : List DerivedField) → length (key_fields fs) ≡ count_keys (schemas fs)
count_keys-length [] = refl
count_keys-length (f ∷ fs) = ground (arith, count_keys-length fs)

count_keys-one :
    (fs : List DerivedField) (key : DerivedField)
    → the_only (key_fields fs) ≡ some key
    → count_keys (schemas fs) ≡ 1
count_keys-one fs key h = sym (count_keys-length fs) ∙ only (key_fields fs) h
  where
    only : (ks : List DerivedField) → the_only ks ≡ some key → length ks ≡ 1
    only [] e = cc
    only (k ∷ []) e = refl
    only (k ∷ l ∷ ks) e = cc

schema_passes :
    (digest : Str → Str) (collection table : Str) (version : ℕ) (fields : List FieldSchema)
    (indexes : List IndexSchema)
    → valid_name collection ≡ true
    → valid_name table ≡ true
    → starts_with reserved table ≡ false
    → (version == 0) ≡ false
    → is_empty fields ≡ false
    → count_keys fields ≡ 1
    → (seen : Seen) → check_fields fields nothing_seen ≡ ok seen
    → (Distinct (columns fields) → check_indexes (columns fields) indexes [] [] ≡ ok tt)
    → validate_collection_schema (schema_of digest collection table version fields indexes) ≡ ok tt
unfolding validate_collection_schema
schema_passes digest collection table version fields indexes c t r v e one seen checked h =
    let (_, _, new_columns, all, keys) =
      check_fields-ok fields nothing_seen seen (omega arith) checked in
    let same =
      check_indexes-same seen.columns (columns fields) indexes [] [] (λ s. ground (arith, all s)) in
    let known = h new_columns.1 in
    let described = canonical_schema-some collection table version fields in
    ground (arith, c, t, r, v, e, one, checked, keys, same, known, described)

derive_fields-some :
    (fs : List StructField) (derived : List DerivedField)
    → derive_fields fs [] [] ≡ some derived
    → is_empty fs ≡ false
    → is_empty (schemas derived) ≡ false
unfolding derive_fields
derive_fields-some [] derived h e = cc
derive_fields-some (f ∷ fs) derived h e =
    let (schema, _, h₁) = >>=-eq-some (derive_field f [] []) _ h in
    let (rest, _, h₂) = >>=-eq-some (derive_fields fs (schema.id ∷ []) (schema.column ∷ [])) _ h₁ in
    ground (arith, h₂)

-- The schema passes, and the statements are those of its table and its key.
abbrev pub Accepted : Expansion → Type 0
Accepted e =
    (validate_collection_schema e.schema ≡ ok tt)
    × ((key : FieldSchema) × (constants : List Str) × (path : Str) × (primary_key e.schema
          ≡ some key)
        × (e ≡ expansion_of e.schema key.column constants path))

the_only-first :
    (f : DerivedField) (fs : List DerivedField) (key : DerivedField)
    → the_only (f ∷ fs) ≡ some key
    → f ≡ key
the_only-first f [] key h = cc
the_only-first f (g ∷ fs) key h = cc

first_key-only :
    (fs : List DerivedField) (key : DerivedField)
    → the_only (key_fields fs) ≡ some key
    → first_primary_key (schemas fs) ≡ some key.schema
first_key-only [] key h = cc
first_key-only (f ∷ fs) key h = elim (Bool-cases f.schema.primary_key) [
  | inl p ↦
      ground
        (arith, p, ap (λ k. k.schema) (the_only-first f (key_fields fs) key (ground (arith, p, h))))
  | inr p ↦ ground (arith, p, first_key-only fs key (ground (arith, p, h)))
]

some_inj {ℓ} : {A : Type ℓ} (a b : A) → some a ≡ some b → a ≡ b
some_inj a b h = cc

module _ (digest : Str → Str) (is_path : Str → Bool) (to_uppercase : Str → Str) where
  expand_fields-Accepted :
      (a : CollectionAttributes) (collection table : Str) (version : ℕ)
      (named_fields : List StructField) (e : Expansion)
      → valid_name collection ≡ true
      → valid_name table ≡ true
      → starts_with reserved table ≡ false
      → (version == 0) ≡ false
      → expand_fields digest is_path to_uppercase a collection table version named_fields ≡ some e
      → Accepted e
  unfolding primary_key
  expand_fields-Accepted a collection table version named_fields e c t r v h =
      let (several, h₁) = require-some (not (is_empty named_fields)) _ h in
      let (fields, derived, h₂) = >>=-eq-some (derive_fields named_fields [] []) _ h₁ in
      let (key, the_key, h₃) = >>=-eq-some (the_only (key_fields fields)) _ h₂ in
      let (indexes, at, h₄) =
        >>=-eq-some (derive_indexes digest collection table (schemas fields) a.indexes [] []) _
          h₃ in
      let (path, _, h₅) = >>=-eq-some (crate_path_of is_path a.crate_path) _ h₄ in
      let (constants, _, h₆) = >>=-eq-some (field_constants to_uppercase fields []) _ h₅ in
      let (seen, passed) = derive_fields-pass named_fields nothing_seen fields derived in
      let schema = schema_of digest collection table version (schemas fields) indexes in
      let done =
        schema_passes digest collection table version (schemas fields) indexes c t r v
          (derive_fields-some named_fields fields derived (ground (arith, several)))
          (count_keys-one fields key the_key) seen passed
          (λ d.
            derive_indexes-pass digest collection table (schemas fields) a.indexes [] [] indexes d
              at) in
      subst Accepted (some_inj (expansion_of schema key.schema.column constants path) e h₆)
        (done, (key.schema, constants, path, first_key-only fields key the_key, refl))

  pub expand_collection-Accepted :
      (input : DeriveInput) (e : Expansion)
      → expand_collection digest is_path to_uppercase input ≡ some e
      → Accepted e
  unfolding expand_collection
  expand_collection-Accepted input e h =
      let (_, h₁) = require-some (not input.is_generic) _ h in
      let (a, _, h₂) = >>=-eq-some (parse_collection_attributes input.metas) _ h₁ in
      let (collection, _, h₃) = >>=-eq-some a.id _ h₂ in
      let (table, _, h₄) = >>=-eq-some a.table _ h₃ in
      let (version, _, h₅) = >>=-eq-some a.version _ h₄ in
      let (_, h₆) = require-some (ltb version (2 ^ 32)) _ h₅ in
      let (u, stable, h₇) = >>=-eq-some (validate_stable_name collection) _ h₆ in
      let (w, named, h₈) = >>=-eq-some (validate_sql_name table true) _ h₇ in
      let (positive, h₉) = require-some (not (version == 0)) _ h₈ in
      let (fields, _, h₁₀) = >>=-eq-some input.named_fields _ h₉ in
      let (valid, free) = validate_sql_name-valid table true w named in
      expand_fields-Accepted a collection table version fields e
        (validate_stable_name-valid collection u stable) valid (ground (arith, free))
        (ground (arith, positive)) h₁₀

  -- Every schema that the macro generates passes the check that the library makes when the collection
  -- is registered, whatever the digest and the parser of paths. The statements by key use the column
  -- of the field that `primary_key` finds in that schema.
  pub expand_collection-passes :
      (input : DeriveInput) (e : Expansion)
      → expand_collection digest is_path to_uppercase input ≡ some e
      → (validate_collection_schema e.schema ≡ ok tt)
        × ((key : FieldSchema) × (primary_key e.schema ≡ some key)
            × (e.select_by_key
                ≡ select_sql (quote_identifier e.schema.table) e.schema.fields key.column)
            × (e.update ≡ update_sql (quote_identifier e.schema.table) e.schema.fields key.column)
            × (e.delete_by_key ≡ delete_sql (quote_identifier e.schema.table) key.column))
  expand_collection-passes input e h =
      let (passed, (key, constants, path, first, form)) = expand_collection-Accepted input e h in
      (
        passed,
        (
          key,
          first,
          ap (λ x. x.select_by_key) form,
          ap (λ x. x.update) form,
          ap (λ x. x.delete_by_key) form,
        ),
      )
