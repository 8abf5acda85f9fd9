-- ===== src/Pool/Runtime/Jobs.antt =====
-- crates/csgdb/src/pool.rs: WAL maintenance moves no counter of the jobs.
use csgdb.Prelude.{
  ℕ, ◌≡◌, refl, false, not, ◌&&◌, inl, inr, Bool-cases, Bool, ltb, saturating_add, arith,
}
use csgdb.Core.Error.{Result, ok, err}
use csgdb.Core.Connection.{CheckpointMode, CheckpointResult, passive}
use csgdb.Pool.Options.{WalMaintenanceOptions}
use csgdb.Pool.Runtime.{
  PoolMetrics, WriterRuntime, record_checkpoint, recorded, after_write, switched,
  run_wal_autocheckpoint, run_automatic_wal_maintenance,
}

-- The counters of the jobs that the writer has taken are the same.
abbrev pub SameJobs : PoolMetrics → PoolMetrics → Type 0
SameJobs m m' =
    (m'.write_jobs_completed ≡ m.write_jobs_completed)
    × (m'.group_commit_transactions ≡ m.group_commit_transactions)
    × (m'.grouped_write_jobs ≡ m.grouped_write_jobs)

pub record_checkpoint-SameJobs :
    (r : WriterRuntime) (m : PoolMetrics) (result : CheckpointResult) (automatic : Bool)
    → SameJobs m (record_checkpoint r m result automatic).1
unfolding record_checkpoint
record_checkpoint-SameJobs r m result automatic = (refl, refl, refl)

module _ {Db : Type 0} (checkpoint : CheckpointMode → Db → Result CheckpointResult × Db) where
  recorded-SameJobs :
      (r : WriterRuntime) (m : PoolMetrics) (answer : Result CheckpointResult × Db)
      → SameJobs m (recorded checkpoint r m answer).1
  unfolding record_checkpoint
  recorded-SameJobs r m (ok result, db) = (refl, refl, refl)
  recorded-SameJobs r m (err e, db) = (refl, refl, refl)

  pub after_write-SameJobs :
      (r : WriterRuntime) (m : PoolMetrics) (db : Db) → SameJobs m (after_write checkpoint r m db).1
  unfolding after_write
  after_write-SameJobs r m db =
      let commits = saturating_add r.commits_since_maintenance 1 in
      let h =
        recorded-SameJobs (record r { commits_since_maintenance = 0 }) m (checkpoint passive db) in
      elim (Bool-cases (not r.maintenance.enabled)) [
        | inl p ↦ ground (arith, p)
        | inr p ↦
            elim (Bool-cases
              (not r.wal_pressure && ltb commits r.maintenance.checkpoint_interval_commits)) [
                | inl q ↦ ground (arith, p, q)
                | inr q ↦ ground (arith, p, q, h)
              ]
      ]

module _ {Db : Type 0} (set_wal_autocheckpoint : ℕ → Db → Result (Unit {0}) × Db) where
  switched-SameJobs :
      (r r' : WriterRuntime) (enabled : Bool) (m : PoolMetrics) (answer : Result (Unit {0}) × Db)
      → SameJobs m (switched set_wal_autocheckpoint r r' enabled m answer).2
  switched-SameJobs r r' enabled m (ok _, db) = (refl, refl, refl)
  switched-SameJobs r r' enabled m (err e, db) = (refl, refl, refl)

  pub run_wal_autocheckpoint-SameJobs :
      (frames : ℕ) (r : WriterRuntime) (m : PoolMetrics) (db : Db)
      → SameJobs m (run_wal_autocheckpoint set_wal_autocheckpoint frames r m db).2
  unfolding run_wal_autocheckpoint
  run_wal_autocheckpoint-SameJobs frames r m db =
      switched-SameJobs r _ false m (set_wal_autocheckpoint frames db)

  pub run_automatic_wal_maintenance-SameJobs :
      (options : WalMaintenanceOptions) (r : WriterRuntime) (m : PoolMetrics) (db : Db)
      → SameJobs m (run_automatic_wal_maintenance set_wal_autocheckpoint options r m db).2
  unfolding run_automatic_wal_maintenance
  run_automatic_wal_maintenance-SameJobs options r m db =
      switched-SameJobs r _ options.enabled m (set_wal_autocheckpoint 0 db)
