-- ===== src/Collection/Valid.antt =====
-- What a collection schema that passes the check promises to the statements built from it.
use csgdb.Prelude.{
  ◌+◌, ◌≤◌, ◌<◌, min, ◌≡◌, inl, inr, Bool-cases, true, false, not, ◌&&◌, ◌||◌, List, [], ◌∷◌, map,
  some, Str, str_eq, str_eq_sound, arith, All, All-mono, ◌==◌,
}
use csgdb.Core.Error.{ok, ◌>>◌, reject_if-ok, >>=-eq-ok, invalid_schema}
use csgdb.Collection.{
  FieldSchema, IndexSchema, CollectionSchema, Seen, bad_names, see, bad_index, bad_header,
  nothing_seen, check_rest, valid_name, is_empty, starts_with, reserved, contains, check_fields,
  check_index_columns, check_indexes, validate_collection_schema, validate_migration, primary_key,
  first_primary_key,
}
use csgdb.Collection.Update.{count_keys}

-- No two of the names are the same.
abbrev pub Distinct : List Str → Type 0
Distinct [] = Unit
Distinct (s ∷ ss) = All (λ t. str_eq t s ≡ false) ss × Distinct ss

-- None of the names was seen before.
abbrev pub Unseen : List Str → List Str → Type 0
Unseen ss seen = All (λ s. contains s seen ≡ false) ss

abbrev pub ids : List FieldSchema → List Str
ids = map (λ f. f.id)

abbrev pub columns : List FieldSchema → List Str
columns = map (λ f. f.column)

abbrev pub FieldOk : FieldSchema → Type 0
FieldOk f =
    (valid_name f.id ≡ true) × (valid_name f.column ≡ true) × (f.primary_key && f.nullable ≡ false)

Unseen-cons :
    (ss : List Str) (s : Str) (seen : List Str)
    → Unseen ss (s ∷ seen)
    → All (λ t. str_eq t s ≡ false) ss × Unseen ss seen
Unseen-cons [] s seen h = (tt, tt)
Unseen-cons (t ∷ ts) s seen h =
    let rest = Unseen-cons ts s seen h.1 in
    ((ground (arith, h.0), rest.0), (ground (arith, h.0), rest.1))

-- What the loop over the fields has checked.
abbrev pub Checked : List FieldSchema → Seen → Seen → Type 0
Checked fs seen seen' =
    All FieldOk fs
    × (Unseen (ids fs) seen.ids × Distinct (ids fs))
    × (Unseen (columns fs) seen.columns × Distinct (columns fs))
    × ((s : Str) → contains s seen'.columns ≡ contains s (columns fs) || contains s seen.columns)
    × (seen'.primary_keys ≡ min 255 (seen.primary_keys + count_keys fs))

pub check_fields-ok :
    (fs : List FieldSchema) (seen seen' : Seen)
    → seen.primary_keys ≤ 255
    → check_fields fs seen ≡ ok seen'
    → Checked fs seen seen'
unfolding check_fields
check_fields-ok [] seen seen' b h =
    (tt, (tt, tt), (tt, tt), (λ s. ground (arith, h)), ground (arith, h))
check_fields-ok (f ∷ fs) seen seen' b h =
    let (names, h₁) = reject_if-ok (bad_names f seen) invalid_schema _ h in
    let (key, h₂) = reject_if-ok (f.primary_key && f.nullable) invalid_schema _ h₁ in
    let (fields, new_ids, new_columns, all, keys) =
      check_fields-ok fs (see f seen) seen' (ground (arith, b)) h₂ in
    let i = Unseen-cons (ids fs) f.id seen.ids new_ids.0 in
    let c = Unseen-cons (columns fs) f.column seen.columns new_columns.0 in
    (
      ((ground (arith, names), ground (arith, names), key), fields),
      ((ground (arith, names), i.1), (i.0, new_ids.1)),
      ((ground (arith, names), c.1), (c.0, new_columns.1)),
      (λ s. ground (arith, all s)),
      ground (arith, keys, b),
    )

check_index_columns-ok :
    (all cs seen : List Str)
    → check_index_columns all cs seen ≡ ok tt
    → All (λ c. contains c all ≡ true) cs × Unseen cs seen × Distinct cs
unfolding check_index_columns
check_index_columns-ok all [] seen h = (tt, tt, tt)
check_index_columns-ok all (c ∷ cs) seen h =
    let (new, h₁) = reject_if-ok (not (contains c all) || contains c seen) invalid_schema _ h in
    let (known, unseen, distinct) = check_index_columns-ok all cs (c ∷ seen) h₁ in
    let u = Unseen-cons cs c seen unseen in
    ((ground (arith, new), known), (ground (arith, new), u.1), (u.0, distinct))

-- An index of a table with these columns.
abbrev pub IndexOk : List Str → IndexSchema → Type 0
IndexOk all i =
    (valid_name i.name ≡ true)
    × (starts_with reserved i.name ≡ false)
    × (is_empty i.columns ≡ false)
    × All (λ c. contains c all ≡ true) i.columns
    × Distinct i.columns

abbrev index_names : List IndexSchema → List Str
index_names = map (λ i. i.name)

check_indexes-ok :
    (all : List Str) (is : List IndexSchema) (ids names : List Str)
    → check_indexes all is ids names ≡ ok tt
    → All (IndexOk all) is × Unseen (index_names is) names × Distinct (index_names is)
unfolding check_indexes
check_indexes-ok all [] ids names h = (tt, tt, tt)
check_indexes-ok all (i ∷ is) ids names h =
    let (good, h₁) = reject_if-ok (bad_index i ids names) invalid_schema _ h in
    let (_, here, h₂) = >>=-eq-ok (check_index_columns all i.columns []) _ h₁ in
    let (known, _, distinct) = check_index_columns-ok all i.columns [] here in
    let (indexes, unseen, apart) = check_indexes-ok all is (i.id ∷ ids) (i.name ∷ names) h₂ in
    let u = Unseen-cons (index_names is) i.name names unseen in
    (
      (
        (ground (arith, good), ground (arith, good), ground (arith, good), known, distinct),
        indexes,
      ),
      (ground (arith, good), u.1),
      (u.0, apart),
    )

IndexOk-mono :
    (all all' : List Str) (i : IndexSchema)
    → ((s : Str) → contains s all ≡ true → contains s all' ≡ true)
    → IndexOk all i
    → IndexOk all' i
IndexOk-mono all all' i f (name, free, some_column, known, distinct) =
    (name, free, some_column, All-mono _ _ i.columns f known, distinct)

first_key :
    (fs : List FieldSchema)
    → count_keys fs ≡ 1
    → All FieldOk fs
    → (f : FieldSchema) × (first_primary_key fs ≡ some f) × (f.nullable ≡ false)
first_key [] h k = absurd (omega (arith, h))
first_key (f ∷ fs) h k = elim (Bool-cases f.primary_key) [
  | inl p ↦ (f, ground (arith, p), ground (arith, p, k.0.2))
  | inr p ↦
      let (g, at, plain) = first_key fs (ground (arith, p, h)) k.1 in
      (g, ground (arith, p, at), plain)
]

abbrev pub Valid : CollectionSchema → Type 0
Valid schema =
    (valid_name schema.table ≡ true)
    × (starts_with reserved schema.table ≡ false)
    × (1 ≤ schema.version)
    × All FieldOk schema.fields
    × Distinct (ids schema.fields)
    × Distinct (columns schema.fields)
    × (count_keys schema.fields ≡ 1)
    × ((key : FieldSchema) × (primary_key schema ≡ some key) × (key.nullable ≡ false))
    × All (IndexOk (columns schema.fields)) schema.indexes
    × Distinct (index_names schema.indexes)

-- A schema that passes the check has valid names outside the library's own prefix, a version from 1,
-- fields with valid and distinct identities and distinct columns, exactly one key field, which is not
-- nullable and which `primary_key` finds, and indexes with distinct names, each over distinct columns
-- of the table.
pub validate_collection_schema-Valid :
    (schema : CollectionSchema) → validate_collection_schema schema ≡ ok tt → Valid schema
unfolding validate_collection_schema primary_key
validate_collection_schema-Valid schema h =
    let (header, h₁) = reject_if-ok (bad_header schema) invalid_schema _ h in
    let (seen, checked, h₂) =
      >>=-eq-ok (check_fields schema.fields nothing_seen) (check_rest schema) h₁ in
    let (fields, new_ids, new_columns, all, keys) =
      check_fields-ok schema.fields nothing_seen seen (omega arith) checked in
    let (one, h₃) = reject_if-ok (not (seen.primary_keys == 1)) invalid_schema _ h₂ in
    let (indexes, _, apart) = check_indexes-ok seen.columns schema.indexes [] [] h₃ in
    let count : count_keys schema.fields ≡ 1 = ground (arith, one, keys) in
    (
      ground (arith, header),
      ground (arith, header),
      ground (arith, header),
      fields,
      new_ids.1,
      new_columns.1,
      count,
      first_key schema.fields count fields,
      All-mono _ _ schema.indexes
          (λ i.
            IndexOk-mono seen.columns (columns schema.fields) i (λ s k. ground (arith, all s, k)))
          indexes,
      apart,
    )

-- A migration that passes the check goes between two schemas that pass theirs, of one collection, to
-- a higher version and another fingerprint.
pub validate_migration-forward :
    (from to : CollectionSchema) (migration_id : Str)
    → validate_migration from to migration_id ≡ ok tt
    → Valid from
      × Valid to
      × (from.id ≡ to.id)
      × (from.version < to.version)
      × (str_eq from.fingerprint to.fingerprint ≡ false)
      × (valid_name migration_id ≡ true)
unfolding validate_migration
validate_migration-forward from to migration_id h =
    let (_, both, h₁) =
      >>=-eq-ok (validate_collection_schema from >> validate_collection_schema to) _ h in
    let (_, first, second) = >>=-eq-ok (validate_collection_schema from) _ both in
    (
      validate_collection_schema-Valid from first,
      validate_collection_schema-Valid to second,
      str_eq_sound from.id to.id (ground (arith, h₁)),
      ground (arith, h₁),
      ground (arith, h₁),
      ground (arith, h₁),
    )
