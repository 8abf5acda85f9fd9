-- ===== src/Collection/Registry/Migrate/Examples.antt =====
-- A database that counts the changes of a transaction, and holds the collection of memories at version 3.
use csgdb.Prelude.{◌≡◌, refl, ap, sym, ℕ, ◌+◌, List, [], ◌∷◌, map, Str, str}
use csgdb.Prelude.Int.{pos}
use csgdb.Core.Error.{ErrorCode, Result, ok, err}
use csgdb.Core.Value.{ValueRef}
use csgdb.Collection.{IndexSchema}
use csgdb.Collection.Examples.{memory, by_namespace}
use csgdb.Collection.Valid.{Valid}
use csgdb.Collection.Rows.{
  RegistrySql, Row, Transaction, Database, find_registered_schema_sql, find_table_owner_sql,
  table_columns_sql, find_registered_indexes_sql, physical_index_sql, physical_index_columns_sql,
}
use csgdb.Collection.Registry.{schema_columns}
use csgdb.Collection.Registry.Examples.{memory_columns}
use csgdb.Collection.Registry.Indexes.{Act}
use csgdb.Collection.Registry.Migrate.{Collection, register_steps, register_collection}
use csgdb.Collection.Registry.Migrate.Atomic.{Transactional, Whole, register_collection-Whole}

abbrev digest : Str
digest = str "0123456789abcdef0123456789abcdef"

abbrev index : IndexSchema
index = record by_namespace { fingerprint = digest }

abbrev third : Collection
third = record {
  schema = record memory { version = 3; fingerprint = digest; indexes = index ∷ [] };
  create_table_sql = str "CREATE TABLE memory";
  create_index_sql = str "CREATE INDEX memory_by_ns" ∷ [];
}

abbrev fourth : Collection
fourth = record {
  schema = record memory {
    version = 4;
    fingerprint = str "fedcba9876543210fedcba9876543210";
    indexes = index ∷ [];
  };
  create_table_sql = str "CREATE TABLE memory";
  create_index_sql = str "CREATE INDEX memory_by_ns" ∷ [];
}

abbrev number : ℕ → Result ValueRef
number n = ok (ValueRef.integer (pos n))

abbrev index_entry : Row
index_entry =
    ok (ValueRef.text index.id)
    ∷ ok (ValueRef.text index.name)
    ∷ number 0
    ∷ ok (ValueRef.blob digest)
    ∷ ok (ValueRef.text index.canonical_descriptor)
    ∷ []

abbrev key_part : Str → Result Row
key_part name =
    ok (ok (ValueRef.text name) ∷ number 0 ∷ ok (ValueRef.text (str "binary")) ∷ number 1 ∷ [])

abbrev run_query : RegistrySql → List ValueRef → ℕ → Result (List (Result Row))
run_query find_registered_schema_sql ps tx = ok (ok (map ok (schema_columns third.schema)) ∷ [])
run_query find_table_owner_sql ps tx = ok (ok (number 0 ∷ []) ∷ [])
run_query table_columns_sql ps tx = ok memory_columns
run_query find_registered_indexes_sql ps tx = ok (ok index_entry ∷ [])
run_query physical_index_sql ps tx =
    ok (ok (number 0 ∷ ok (ValueRef.text (str "c")) ∷ number 0 ∷ []) ∷ [])
run_query physical_index_columns_sql ps tx =
    ok (key_part (str "ns") ∷ key_part (str "memory_id") ∷ [])
run_query _ ps tx = ok []

abbrev counting : Transaction
counting = record {
  Tx = ℕ;
  query = run_query;
  execute = λ s ps tx. (ok 1, tx + 1);
  execute_batch = λ batch tx. (ok tt, tx + 1);
}

abbrev database : Database
database = record {
  engine = counting;
  Db = ℕ;
  transaction = λ db. (ok db, db);
  commit = λ tx db. (ok tt, tx);
  rollback = λ tx db. db;
}

abbrev Commits : (ℕ → ℕ → Result (Unit {0}) × ℕ) → Type 0
Commits commit = (tx db db' : ℕ) (code : ErrorCode) → commit tx db ≡ (err code, db') → db' ≡ db

never_fails : Commits database.commit
never_fails tx db db' code h = cc

abbrev laws : Transactional database ℕ
laws = record {
  data_of = λ db. db;
  view = λ tx. tx;
  begins = λ db. refl;
  drops = λ tx db. refl;
  commits = λ tx db db' h. ap (λ q. q.1) (sym h);
  fails = never_fails;
}

abbrev rewrite_rows : Act ℕ (Unit {0})
rewrite_rows tx = (ok tt, tx + 1)

register_collection-Whole_example :
    Whole database laws (register_steps counting third) 5 (register_collection database third 5)
register_collection-Whole_example = register_collection-Whole database laws third 5
