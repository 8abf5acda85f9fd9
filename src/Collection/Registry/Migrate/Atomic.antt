-- ===== src/Collection/Registry/Migrate/Atomic.antt =====
-- A registration or a migration happens as a whole or not at all.
use csgdb.Prelude.{◌≡◌, refl, ◌∙◌, Str}
use csgdb.Core.Error.{ErrorCode, Result, ok, err}
use csgdb.Collection.Rows.{Database}
use csgdb.Collection.Registry.Indexes.{Act}
use csgdb.Collection.Registry.Migrate.{
  Collection, register_steps, migrate_steps, committed, close_transaction, within, checked_first,
  register_collection, migrate_collection,
}

-- What the engine promises of a transaction, `data_of` being what is committed and `view` what the
-- transaction sees: only a successful commit changes what is committed, to what was seen.
pub record Transactional (d : Database) (D : Type 0) : Type 0 where
  pub data_of : d.Db → D
  pub view : d.engine.Tx → D
  pub begins : (db : d.Db) → data_of (d.transaction db).1 ≡ data_of db
  pub drops : (tx : d.engine.Tx) (db : d.Db) → data_of (d.rollback tx db) ≡ data_of db
  pub commits :
      (tx : d.engine.Tx) (db db' : d.Db) → d.commit tx db ≡ (ok tt, db') → data_of db' ≡ view tx
  pub fails :
      (tx : d.engine.Tx) (db db' : d.Db) (code : ErrorCode)
      → d.commit tx db ≡ (err code, db')
      → data_of db' ≡ data_of db

module _ (d : Database) {D : Type 0} (laws : Transactional d D) where
  open d use {engine, Db, transaction, commit, rollback}
  open laws use {data_of, view}

  -- An error leaves what is committed as it was. Otherwise all the steps succeeded, on one transaction,
  -- and what it saw at their end is committed.
  abbrev pub Whole : {A : Type 0} → Act engine.Tx A → Db → Result A × Db → Type 0
  Whole steps db (err code, db') = data_of db' ≡ data_of db
  Whole steps db (ok value, db') =
      (tx : engine.Tx) × (tx' : engine.Tx) × (steps tx ≡ (ok value, tx')) × (data_of db' ≡ view tx')

  committed-Whole :
      {A : Type 0} (steps : Act engine.Tx A) (value : A) (tx tx' : engine.Tx) (db db₁ : Db)
      (q : Result (Unit {0}) × Db)
      → data_of db₁ ≡ data_of db
      → steps tx ≡ (ok value, tx')
      → commit tx' db₁ ≡ q
      → Whole steps db (committed d value q)
  committed-Whole steps value tx tx' db db₁ (ok done, db') same run e =
      (tx, tx', run, laws.commits tx' db₁ db' e)
  committed-Whole steps value tx tx' db db₁ (err code, db') same run e =
      laws.fails tx' db₁ db' code e ∙ same

  close_transaction-Whole :
      {A : Type 0} (steps : Act engine.Tx A) (tx : engine.Tx) (db db₁ : Db)
      (p : Result A × engine.Tx)
      → data_of db₁ ≡ data_of db
      → steps tx ≡ p
      → Whole steps db (close_transaction d p db₁)
  close_transaction-Whole steps tx db db₁ (ok value, tx') same run =
      committed-Whole steps value tx tx' db db₁ (commit tx' db₁) same run refl
  close_transaction-Whole steps tx db db₁ (err code, tx') same run = laws.drops tx' db₁ ∙ same

  within-Whole :
      {A : Type 0} (steps : Act engine.Tx A) (db : Db) (b : Result engine.Tx × Db)
      → data_of b.1 ≡ data_of db
      → Whole steps db (within d steps b)
  within-Whole steps db (ok tx, db₁) same =
      close_transaction-Whole steps tx db db₁ (steps tx) same refl
  within-Whole steps db (err code, db₁) same = same

  checked_first-Whole :
      {A : Type 0} (check : Result (Unit {0})) (steps : Act engine.Tx A) (db : Db)
      → Whole steps db (checked_first d check steps db)
  checked_first-Whole (ok done) steps db = within-Whole steps db (transaction db) (laws.begins db)
  checked_first-Whole (err code) steps db = refl

  pub register_collection-Whole :
      (c : Collection) (db : Db) → Whole (register_steps engine c) db (register_collection d c db)
  unfolding register_collection
  register_collection-Whole c db = checked_first-Whole _ _ db

  pub migrate_collection-Whole :
      (from to : Collection) (migration_id : Str) (operation : Act engine.Tx (Unit {0})) (db : Db)
      → Whole
          (migrate_steps engine from to migration_id operation)
          db
          (migrate_collection d from to migration_id operation db)
  unfolding migrate_collection
  migrate_collection-Whole from to migration_id operation db = checked_first-Whole _ _ db
