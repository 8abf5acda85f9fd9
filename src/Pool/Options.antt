-- ===== src/Pool/Options.antt =====
-- crates/csgdb/src/pool.rs: the limits of a pool, their validation, and the page cache that each
-- connection gets. Durations are in nanoseconds. The `u64::try_from` of a usize cannot fail.
pub mod Bounds
mod Examples
use csgdb.Prelude.{
  ℕ, ◌+◌, ◌*◌, ◌/◌, ◌^◌, ◌-◌, min, Bool, true, false, ◌||◌, ltb, ◌==◌, saturating_add,
  if◌then◌else◌,
}
use csgdb.Core.Error.{Result, ok, err, invalid_pool_configuration, reject_if, ◌>>◌}
use csgdb.Core.Flags
use csgdb.Core.Flags.{contains}
use csgdb.Core.Open.{ResolvedOpenPlan}

abbrev pub max_read_connections : ℕ
max_read_connections = 64

abbrev pub max_write_queue_capacity : ℕ
max_write_queue_capacity = 65_536

abbrev pub max_group_commit_jobs : ℕ
max_group_commit_jobs = 256

abbrev pub max_group_commit_delay : ℕ
max_group_commit_delay = 20_000_000

abbrev pub max_maintenance_interval_commits : ℕ
max_maintenance_interval_commits = 1_000_000

-- `i32::MAX`, in crates/csgdb-storage/src/lib.rs.
abbrev pub max_wal_autocheckpoint_frames : ℕ
max_wal_autocheckpoint_frames = 2 ^ 31 - 1

pub record GroupCommitOptions : Type 0 where
  pub max_jobs : ℕ
  pub max_delay : ℕ

pub record WalMaintenanceOptions : Type 0 where
  pub enabled : Bool
  pub checkpoint_interval_commits : ℕ
  pub wal_soft_limit_frames : ℕ

pub record PoolOptions : Type 0 where
  pub read_connections : ℕ
  pub write_queue_capacity : ℕ
  pub group_commit : GroupCommitOptions
  pub wal_maintenance : WalMaintenanceOptions

-- `GroupCommitOptions::default`
abbrev pub default_group_commit : GroupCommitOptions
default_group_commit = record { max_jobs = 8; max_delay = 250_000 }

-- `WalMaintenanceOptions::default`
abbrev pub default_wal_maintenance : WalMaintenanceOptions
default_wal_maintenance = record {
  enabled = true;
  checkpoint_interval_commits = 32;
  wal_soft_limit_frames = 4_096;
}

-- `PoolOptions::new`
unfoldable pub new : ℕ → ℕ → PoolOptions
new read_connections write_queue_capacity = record {
  read_connections = read_connections;
  write_queue_capacity = write_queue_capacity;
  group_commit = default_group_commit;
  wal_maintenance = default_wal_maintenance;
}

abbrev outside : ℕ → ℕ → Bool
outside n limit = n == 0 || ltb limit n

pub validate_group_commit_options : GroupCommitOptions → Result (Unit {0})
validate_group_commit_options o = do
  reject_if (outside o.max_jobs max_group_commit_jobs) invalid_pool_configuration
  reject_if (ltb max_group_commit_delay o.max_delay) invalid_pool_configuration

pub validate_wal_maintenance_options : WalMaintenanceOptions → Result (Unit {0})
validate_wal_maintenance_options o = do
  reject_if (outside o.checkpoint_interval_commits max_maintenance_interval_commits)
      invalid_pool_configuration
  reject_if (outside o.wal_soft_limit_frames max_wal_autocheckpoint_frames)
      invalid_pool_configuration

pub validate_pool_options : ResolvedOpenPlan → PoolOptions → Result (Unit {0})
unfolding validate_group_commit_options validate_wal_maintenance_options
validate_pool_options plan o = do
  reject_if (outside o.read_connections max_read_connections) invalid_pool_configuration
  reject_if (outside o.write_queue_capacity max_write_queue_capacity) invalid_pool_configuration
  validate_group_commit_options o.group_commit
  validate_wal_maintenance_options o.wal_maintenance
  reject_if (contains plan.flags Flags.readonly) invalid_pool_configuration
  reject_if (contains plan.flags Flags.memory) invalid_pool_configuration

abbrev pub kib : ℕ
kib = 1024

pub pool_cache_bytes_per_connection : ResolvedOpenPlan → PoolOptions → Result ℕ
pool_cache_bytes_per_connection plan o =
    let connection_count = saturating_add o.read_connections 1 in
    let budget_share = plan.memory_budget_bytes / connection_count in
    let selected = min plan.cache_size_bytes budget_share / kib * kib in
    if ltb selected kib then err invalid_pool_configuration else ok selected
