-- ===== src/Collection/Registry/Found.antt =====
-- What the registry holds of a schema or of a migration is what was registered.
use csgdb.Prelude.{
  ◌≡◌, ◌≤◌, ◌<◌, ◌^◌, refl, false, [], ◌∷◌, map, some, str_eq_sound, str_eq_refl, length, arith, ℕ,
}
use csgdb.Core.Error.{Result, ok, err, reject_if-ok, invalid_schema}
use csgdb.Core.Value.{ValueRef}
use csgdb.Collection.{CollectionSchema, validate_collection_schema, bad_header}
use csgdb.Collection.Rows.{
  find_registered_schema_sql, insert_registered_schema_sql, Transaction, value_ref, get_i64,
  get_text, get_blob, fingerprint_from_slice,
}
use csgdb.Collection.Registry.{
  RegisteredSchema, schema_columns, registered_row, find_registered_schema,
  insert_registered_schema, done, ensure_registered_schema_matches,
}

abbrev pub entry_of : CollectionSchema → RegisteredSchema
entry_of schema = record {
  collection_id = schema.id;
  table_name = schema.table;
  version = schema.version;
  fingerprint = schema.fingerprint;
  canonical_descriptor = schema.canonical_descriptor;
}

-- The engine's part: the table holds the entry of a schema as it was inserted. The values have the types
-- that the table declares for its columns, so that SQLite's type affinity leaves them as they are, and
-- meet the table's checks.
abbrev pub Keeps : Transaction → Type 0
Keeps t =
    (schema : CollectionSchema) (tx tx' : t.Tx) (n : ℕ)
    → 1 ≤ schema.version
    → schema.version < 2 ^ 32
    → length schema.fingerprint ≡ 32
    → t.execute insert_registered_schema_sql (ValueRef.text schema.id ∷ schema_columns schema) tx
      ≡ (ok n, tx')
    → t.query find_registered_schema_sql (ValueRef.text schema.id ∷ []) tx'
      ≡ ok (ok (map ok (schema_columns schema)) ∷ [])

registered_row-schema_columns :
    (schema : CollectionSchema)
    → bad_header schema ≡ false
    → schema.version < 2 ^ 32
    → length schema.fingerprint ≡ 32
    → registered_row schema.id (map ok (schema_columns schema)) ≡ ok (entry_of schema)
unfolding registered_row get_i64 get_text get_blob value_ref fingerprint_from_slice
registered_row-schema_columns schema h v f = ground (arith, h, v, f)

-- The two schemas agree on all that the registry holds.
abbrev pub SameEntry : CollectionSchema → CollectionSchema → Type 0
SameEntry one other =
    (one.id ≡ other.id)
    × (one.table ≡ other.table)
    × (one.version ≡ other.version)
    × (one.fingerprint ≡ other.fingerprint)
    × (one.canonical_descriptor ≡ other.canonical_descriptor)

pub ensure_registered_schema_matches-same :
    (schema other : CollectionSchema)
    → ensure_registered_schema_matches other (entry_of schema) ≡ ok tt
    → SameEntry schema other
unfolding ensure_registered_schema_matches
ensure_registered_schema_matches-same schema other h = (
  str_eq_sound schema.id other.id (ground (arith, h)),
  str_eq_sound schema.table other.table (ground (arith, h)),
  ground (arith, h),
  str_eq_sound schema.fingerprint other.fingerprint (ground (arith, h)),
  str_eq_sound schema.canonical_descriptor other.canonical_descriptor (ground (arith, h)),
)

pub ensure_registered_schema_matches-own :
    (schema : CollectionSchema) → ensure_registered_schema_matches schema (entry_of schema) ≡ ok tt
unfolding ensure_registered_schema_matches
ensure_registered_schema_matches-own schema = ground (
  arith,
  str_eq_refl schema.id,
  str_eq_refl schema.table,
  str_eq_refl schema.fingerprint,
  str_eq_refl schema.canonical_descriptor,
)

done-ok :
    (t : Transaction) (p : Result ℕ × t.Tx) (tx' : t.Tx)
    → done t p ≡ (ok tt, tx')
    → (n : ℕ) × (p ≡ (ok n, tx'))
done-ok t (ok n, tx) tx' h = (n, cc)
done-ok t (err code, tx) tx' h = cc

inserted :
    (t : Transaction) (schema : CollectionSchema) (tx tx' : t.Tx)
    → insert_registered_schema t schema tx ≡ (ok tt, tx')
    → (n : ℕ) × (t.execute insert_registered_schema_sql
          (ValueRef.text schema.id ∷ schema_columns schema)
          tx
        ≡ (ok n, tx'))
unfolding insert_registered_schema
inserted t schema tx tx' h = done-ok t _ tx' h

-- After a schema that passes its check, of a version within 32 bits and a fingerprint of 32 bytes, was
-- inserted into a table that keeps such entries, the lookup of its identity finds its entry; the
-- entry matches that schema, and every schema that it matches agrees with it on identity, table,
-- version, fingerprint and descriptor.
pub find_registered_schema-insert_registered_schema :
    (t : Transaction) (schema : CollectionSchema) (tx tx' : t.Tx)
    → Keeps t
    → validate_collection_schema schema ≡ ok tt
    → schema.version < 2 ^ 32
    → length schema.fingerprint ≡ 32
    → insert_registered_schema t schema tx ≡ (ok tt, tx')
    → (found : RegisteredSchema) × (find_registered_schema t schema.id tx' ≡ ok (some found))
      × (ensure_registered_schema_matches schema found ≡ ok tt)
      × ((other : CollectionSchema)
          → ensure_registered_schema_matches other found ≡ ok tt
          → SameEntry schema other)
unfolding find_registered_schema validate_collection_schema
find_registered_schema-insert_registered_schema t schema tx tx' keeps valid v f h =
    let (n, run) = inserted t schema tx tx' h in
    let (header, _) = reject_if-ok (bad_header schema) invalid_schema _ valid in
    let row = registered_row-schema_columns schema header v f in
    let rows = keeps schema tx tx' n (ground (arith, header)) v f run in
    (
      entry_of schema,
      rw rows (rw row refl),
      ensure_registered_schema_matches-own schema,
      ensure_registered_schema_matches-same schema,
    )
