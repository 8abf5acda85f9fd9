-- ===== src/Pool/Runtime.antt =====
-- crates/csgdb/src/pool.rs, `PoolMetrics` and `WriterRuntime`: the counters of a pool, and the writer's
-- policy of WAL maintenance. A counter is a 64-bit atomic that wraps.
pub mod Pressure
pub mod Cadence
pub mod Jobs
mod Examples
use csgdb.Prelude.{
  fetch_add, ℕ, Bool, true, false, not, ◌&&◌, Option, none, some, ltb, saturating_add,
  if◌then◌else◌,
}
use csgdb.Core.Error.{Result, ok, err}
use csgdb.Core.Connection.{CheckpointMode, CheckpointResult, passive, remaining_frames, is_complete}
use csgdb.Pool.Options.{WalMaintenanceOptions}

pub record PoolMetrics : Type 0 where
  pub writer_active : Bool
  pub write_jobs_submitted : ℕ
  pub write_jobs_completed : ℕ
  pub write_jobs_rejected : ℕ
  pub group_commit_transactions : ℕ
  pub grouped_write_jobs : ℕ
  pub largest_group_commit : ℕ
  pub checkpoint_runs : ℕ
  pub automatic_checkpoint_runs : ℕ
  pub incomplete_checkpoints : ℕ
  pub maintenance_failures : ℕ
  pub wal_pressure_events : ℕ
  pub wal_pressure_active : Bool
  pub automatic_maintenance_enabled : Bool
  pub last_observed_wal_frames : ℕ
  pub last_remaining_wal_frames : ℕ

pub record WriterRuntime : Type 0 where
  pub maintenance : WalMaintenanceOptions
  pub commits_since_maintenance : ℕ
  pub wal_pressure : Bool

-- `WriterRuntime::new`
unfoldable pub new : WalMaintenanceOptions → WriterRuntime
new maintenance = record {
  maintenance = maintenance;
  commits_since_maintenance = 0;
  wal_pressure = false;
}

unfoldable pub disable_automatic_maintenance : WriterRuntime → WriterRuntime
disable_automatic_maintenance r = record {
  maintenance = record (r.maintenance) { enabled = false };
  commits_since_maintenance = 0;
  wal_pressure = false;
}

unfoldable pub set_automatic_maintenance : WriterRuntime → WalMaintenanceOptions → WriterRuntime
set_automatic_maintenance r options = record {
  maintenance = options;
  commits_since_maintenance = 0;
  wal_pressure = false;
}

abbrev or_zero : Option ℕ → ℕ
or_zero none = 0
or_zero (some n) = n

abbrev count_if : Bool → ℕ → ℕ
count_if b n = if b then fetch_add n 1 else n

-- Is the WAL that a checkpoint left behind over the soft limit?
unfoldable pub pressure_of : WalMaintenanceOptions → CheckpointResult → Bool
pressure_of o result = ltb o.wal_soft_limit_frames (or_zero (remaining_frames result))

unfoldable pub record_checkpoint :
    WriterRuntime → PoolMetrics → CheckpointResult → Bool → WriterRuntime × PoolMetrics
record_checkpoint r m result automatic =
    let pressure = pressure_of r.maintenance result in
    (
      record r { wal_pressure = pressure },
      record m {
        checkpoint_runs = fetch_add m.checkpoint_runs 1;
        automatic_checkpoint_runs = count_if automatic m.automatic_checkpoint_runs;
        incomplete_checkpoints = count_if (not (is_complete result)) m.incomplete_checkpoints;
        last_observed_wal_frames = or_zero result.wal_frames;
        last_remaining_wal_frames = or_zero (remaining_frames result);
        wal_pressure_events = count_if (pressure && not r.wal_pressure) m.wal_pressure_events;
        wal_pressure_active = pressure;
      },
    )

module _ {Db : Type 0} (checkpoint : CheckpointMode → Db → Result CheckpointResult × Db) where
  abbrev recorded :
      WriterRuntime → PoolMetrics → Result CheckpointResult × Db → WriterRuntime × PoolMetrics × Db
  recorded r m (ok result, db) = let (r', m') = record_checkpoint r m result true in (r', m', db)
  recorded r m (err e, db) =
      (r, record m { maintenance_failures = fetch_add m.maintenance_failures 1 }, db)

  -- A checkpoint is due at every interval of jobs that count, and at every such job under pressure.
  pub after_write : WriterRuntime → PoolMetrics → Db → WriterRuntime × PoolMetrics × Db
  after_write r m db =
      let commits = saturating_add r.commits_since_maintenance 1 in
      if not r.maintenance.enabled
      then (r, m, db)
      else if not r.wal_pressure && ltb commits r.maintenance.checkpoint_interval_commits
      then (record r { commits_since_maintenance = commits }, m, db)
      else recorded (record r { commits_since_maintenance = 0 }) m (checkpoint passive db)

-- What the writer runs for `set_wal_autocheckpoint` and `set_automatic_wal_maintenance`; the engine's
-- own auto-checkpoint is set first, and nothing changes here if that fails.
module _ {Db : Type 0} (set_wal_autocheckpoint : ℕ → Db → Result (Unit {0}) × Db) where
  abbrev switched :
      WriterRuntime
      → WriterRuntime
      → Bool
      → PoolMetrics
      → Result (Unit {0}) × Db
      → Result (Unit {0}) × WriterRuntime × PoolMetrics × Db
  switched r r' enabled m (ok _, db) = (
    ok tt,
    r',
    record m { automatic_maintenance_enabled = enabled; wal_pressure_active = false },
    db,
  )
  switched r r' enabled m (err e, db) = (err e, r, m, db)

  unfoldable pub run_wal_autocheckpoint :
      ℕ → WriterRuntime → PoolMetrics → Db → Result (Unit {0}) × WriterRuntime × PoolMetrics × Db
  unfolding disable_automatic_maintenance
  run_wal_autocheckpoint frames r m db =
      switched r (disable_automatic_maintenance r) false m (set_wal_autocheckpoint frames db)

  unfoldable pub run_automatic_wal_maintenance :
      WalMaintenanceOptions
      → WriterRuntime
      → PoolMetrics
      → Db
      → Result (Unit {0}) × WriterRuntime × PoolMetrics × Db
  unfolding set_automatic_maintenance
  run_automatic_wal_maintenance options r m db =
      switched r (set_automatic_maintenance r options) options.enabled m
        (set_wal_autocheckpoint 0 db)
