-- ===== src/Pool/Options/Bounds.antt =====
-- What validated limits guarantee.
use csgdb.Prelude.{ℕ, ◌+◌, ◌*◌, ◌/◌, ◌%◌, ◌≤◌, ◌<◌, ◌≡◌, ◌↔◌, min, false, arith, saturating_add}
use csgdb.Core.Error.{ok}
use csgdb.Core.Flags
use csgdb.Core.Flags.{contains}
use csgdb.Core.Open.{ResolvedOpenPlan}
use csgdb.Pool.Options.{
  PoolOptions, validate_pool_options, pool_cache_bytes_per_connection, kib, max_read_connections,
  max_write_queue_capacity, max_group_commit_jobs, max_group_commit_delay,
  max_maintenance_interval_commits, max_wal_autocheckpoint_frames,
}

-- The limits that a pool may run with.
pub record InRange (plan : ResolvedOpenPlan) (o : PoolOptions) : Type 0 where
  pub readers : (0 < o.read_connections) × (o.read_connections ≤ max_read_connections)
  pub queue : (0 < o.write_queue_capacity) × (o.write_queue_capacity ≤ max_write_queue_capacity)
  pub jobs : (0 < o.group_commit.max_jobs) × (o.group_commit.max_jobs ≤ max_group_commit_jobs)
  pub delay : o.group_commit.max_delay ≤ max_group_commit_delay
  pub interval :
      (0 < o.wal_maintenance.checkpoint_interval_commits)
      × (o.wal_maintenance.checkpoint_interval_commits ≤ max_maintenance_interval_commits)
  pub soft_limit :
      (0 < o.wal_maintenance.wal_soft_limit_frames)
      × (o.wal_maintenance.wal_soft_limit_frames ≤ max_wal_autocheckpoint_frames)
  pub writable : contains plan.flags Flags.readonly ≡ false
  pub on_disk : contains plan.flags Flags.memory ≡ false

share_fits : (b k s : ℕ) → s ≤ b / (k + 1) → s * (k + 1) ≤ b
share_fits b k s h = grind arith

fits_share : (b k m : ℕ) → m * (k + 1) ≤ b → m ≤ b / (k + 1)
fits_share b k m h = grind arith

module _ (plan : ResolvedOpenPlan) (o : PoolOptions) where
  pub validate_pool_options_sound : validate_pool_options plan o ≡ ok tt → InRange plan o
  unfolding validate_pool_options
  validate_pool_options_sound h = ground arith

  validate_pool_options_complete : InRange plan o → validate_pool_options plan o ≡ ok tt
  unfolding validate_pool_options
  validate_pool_options_complete v = ground arith

  -- Pool options are accepted exactly when every limit is in its range and the plan opens a
  -- writable database on disk.
  pub validate_pool_options_iff : (validate_pool_options plan o ≡ ok tt) ↔ InRange plan o
  validate_pool_options_iff = (validate_pool_options_sound, validate_pool_options_complete)

  -- Under accepted options the page caches of the writer and of all the readers together stay
  -- within the memory budget; each is at most the plan's cache size, at least one KiB, and a whole
  -- number of KiB.
  pub pool_cache_bytes_per_connection_bounds :
      (n : ℕ)
      → validate_pool_options plan o ≡ ok tt
      → pool_cache_bytes_per_connection plan o ≡ ok n
      → (n * (o.read_connections + 1) ≤ plan.memory_budget_bytes)
        × (n ≤ plan.cache_size_bytes)
        × (kib ≤ n)
        × (n % kib ≡ 0)
  unfolding pool_cache_bytes_per_connection saturating_add
  pool_cache_bytes_per_connection_bounds n v h =
      let r = (validate_pool_options_sound v).readers in
      (share_fits _ _ n (ground arith), ground arith, ground arith, ground arith)

  -- No larger whole number of KiB would do, and the request is refused only where none does.
  pub pool_cache_bytes_per_connection_largest :
      (m : ℕ)
      → validate_pool_options plan o ≡ ok tt
      → kib ≤ m
      → m % kib ≡ 0
      → m ≤ plan.cache_size_bytes
      → m * (o.read_connections + 1) ≤ plan.memory_budget_bytes
      → (n : ℕ) × (pool_cache_bytes_per_connection plan o ≡ ok n) × (m ≤ n)
  unfolding pool_cache_bytes_per_connection saturating_add
  pool_cache_bytes_per_connection_largest m v k w c b =
      let r = (validate_pool_options_sound v).readers in
      let s = fits_share _ _ m b in
      (
        min plan.cache_size_bytes (plan.memory_budget_bytes / (o.read_connections + 1)) / kib * kib,
        ground arith,
        ground arith,
      )
