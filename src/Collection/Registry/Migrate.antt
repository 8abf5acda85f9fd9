-- ===== src/Collection/Registry/Migrate.antt =====
-- The registration of a collection and its migration, each in one transaction.
pub mod Atomic
pub mod Applied
mod Examples
use csgdb.Prelude.{Bool, List, Option, none, some, Str}
use csgdb.Core.Error.{ErrorCode, Result, ok, err, ◌>>◌, ◌>>=◌, migration_mismatch}
use csgdb.Collection.{CollectionSchema, validate_collection_schema, validate_migration}
use csgdb.Collection.Rows.{
  Batch, schema_registry_sql, index_registry_sql, migration_registry_sql, sql, Transaction,
  Database,
}
use csgdb.Collection.Registry.{
  RegisteredSchema, RegisteredMigration, find_registered_schema, insert_registered_schema,
  update_registered_schema, find_migration, insert_migration, ensure_migration_matches,
  ensure_registered_schema_matches, ensure_table_is_unclaimed, validate_physical_table,
}
use csgdb.Collection.Registry.Indexes.{
  Act, after, validate_registered_indexes, validate_physical_indexes, insert_registered_indexes,
  replace_registered_indexes, create_declared_indexes, replace_declared_indexes,
}

-- A collection: its schema and the statements that its generated code holds.
pub record Collection : Type 0 where
  pub schema : CollectionSchema
  pub create_table_sql : Str
  pub create_index_sql : List Str

pub data SchemaRegistration : Type 0 where
  created already_registered : SchemaRegistration

pub data MigrationStatus : Type 0 where
  applied already_applied : MigrationStatus

-- `map_err(|_| migration_mismatch())`
abbrev or_mismatch {ℓ} : {A : Type ℓ} → Result A → Result A
or_mismatch (ok value) = ok value
or_mismatch (err code) = err migration_mismatch

-- `ok_or_else(migration_mismatch)`
abbrev required : Option RegisteredSchema → Result RegisteredSchema
required none = err migration_mismatch
required (some r) = ok r

module _ (t : Transaction) where
  open t use {Tx, execute_batch}

  -- A step that only reads.
  abbrev pub reads : {A B : Type 0} → (Tx → Result A) → (A → Act Tx B) → Act Tx B
  reads r next tx = after (r tx, tx) next

  unfoldable pub initialize_schema_registries : Act Tx (Unit {0})
  initialize_schema_registries tx = after (execute_batch schema_registry_sql tx) (λ one tx₁.
      after (execute_batch index_registry_sql tx₁)
        (λ two tx₂. execute_batch migration_registry_sql tx₂))

  abbrev register_new : Collection → Act Tx SchemaRegistration
  register_new c = reads (ensure_table_is_unclaimed t c.schema) (λ free tx₁.
      after (execute_batch (sql c.create_table_sql) tx₁) (λ table tx₂.
        after (insert_registered_schema t c.schema tx₂) (λ entry tx₃.
          after (create_declared_indexes t c.create_index_sql c.schema tx₃) (λ indexes tx₄.
            after (insert_registered_indexes t c.schema.id c.schema.indexes tx₄)
              (λ entries tx₅. (ok created, tx₅))))))

  abbrev register_found : Collection → Option RegisteredSchema → Act Tx SchemaRegistration
  register_found c none = register_new c
  register_found c (some existing) =
      reads
        (λ tx.
          ensure_registered_schema_matches c.schema existing
          >> validate_registered_indexes t c.schema tx)
        (λ same tx. (ok already_registered, tx))

  abbrev pub physical : CollectionSchema → Tx → Result (Unit {0})
  physical schema tx = validate_physical_table t schema tx >> validate_physical_indexes t schema tx

  -- The steps of `register_collection` within its transaction.
  unfoldable pub register_steps : Collection → Act Tx SchemaRegistration
  unfolding initialize_schema_registries
  register_steps c tx = after (initialize_schema_registries tx) (λ ready.
      reads (find_registered_schema t c.schema.id) (λ existing tx₁.
        after (register_found c existing tx₁)
          (λ registration. reads (physical c.schema) (λ checked tx₂. (ok registration, tx₂)))))

  -- The entry of the schema is the registered one, and so are its indexes.
  abbrev pub current : CollectionSchema → Str → Tx → Result (Unit {0})
  current schema id tx = find_registered_schema t id tx >>= required >>= λ r.
      or_mismatch (ensure_registered_schema_matches schema r)
      >> or_mismatch (validate_registered_indexes t schema tx)

  abbrev pub again :
      CollectionSchema → CollectionSchema → RegisteredMigration → Tx → Result MigrationStatus
  again from to m tx =
      ensure_migration_matches m from to
      >> current to from.id tx
      >> or_mismatch (validate_physical_table t to tx)
      >> or_mismatch (validate_physical_indexes t to tx)
      >> ok already_applied

  -- What follows the application's own operation.
  abbrev pub record_migration : Str → CollectionSchema → Collection → Act Tx MigrationStatus
  record_migration migration_id from to =
      reads
        (λ tx. ensure_table_is_unclaimed t to.schema tx >> validate_physical_table t to.schema tx)
        (λ checked tx₁.
          after (replace_declared_indexes t to.create_index_sql from to.schema tx₁) (λ replaced.
            reads (validate_physical_indexes t to.schema) (λ right tx₂.
              after (update_registered_schema t to.schema tx₂) (λ updated tx₃.
                after (replace_registered_indexes t to.schema tx₃) (λ entries tx₄.
                  after (insert_migration t migration_id from to.schema tx₄)
                    (λ recorded tx₅. (ok applied, tx₅)))))))

  abbrev pub migrate_found :
      Collection
      → Collection
      → Str
      → Act Tx (Unit {0})
      → Option RegisteredMigration
      → Act Tx MigrationStatus
  migrate_found from to migration_id operation (some m) tx = (again from.schema to.schema m tx, tx)
  migrate_found from to migration_id operation none tx =
      reads (λ tx₁. current from.schema from.schema.id tx₁ >> physical from.schema tx₁)
        (λ checked tx₁.
          after (operation tx₁) (λ transformed. record_migration migration_id from.schema to))
        tx

  -- The steps of `migrate_collection` within its transaction.
  unfoldable pub migrate_steps :
      Collection → Collection → Str → Act Tx (Unit {0}) → Act Tx MigrationStatus
  unfolding initialize_schema_registries
  migrate_steps from to migration_id operation tx =
      after (initialize_schema_registries tx) (λ ready.
        reads (find_migration t from.schema.id migration_id)
          (migrate_found from to migration_id operation))

module _ (d : Database) where
  open d use {engine, Db, transaction, commit, rollback}

  abbrev pub committed : {A : Type 0} → A → Result (Unit {0}) × Db → Result A × Db
  committed value (r, db) = (r >> ok value, db)

  abbrev pub close_transaction : {A : Type 0} → Result A × engine.Tx → Db → Result A × Db
  close_transaction (ok value, tx) db = committed value (commit tx db)
  close_transaction (err code, tx) db = (err code, rollback tx db)

  abbrev pub within : {A : Type 0} → Act engine.Tx A → Result engine.Tx × Db → Result A × Db
  within steps (err code, db) = (err code, db)
  within steps (ok tx, db) = close_transaction (steps tx) db

  abbrev pub checked_first : {A : Type 0} → Result (Unit {0}) → Act engine.Tx A → Db → Result A × Db
  checked_first (err code) steps db = (err code, db)
  checked_first (ok done) steps db = within steps (transaction db)

  unfoldable pub register_collection : Collection → Db → Result SchemaRegistration × Db
  unfolding validate_collection_schema register_steps
  register_collection c db =
      checked_first (validate_collection_schema c.schema) (register_steps engine c) db

  unfoldable pub migrate_collection :
      Collection → Collection → Str → Act engine.Tx (Unit {0}) → Db → Result MigrationStatus × Db
  unfolding validate_migration migrate_steps
  migrate_collection from to migration_id operation db =
      checked_first (validate_migration from.schema to.schema migration_id)
        (migrate_steps engine from to migration_id operation) db
