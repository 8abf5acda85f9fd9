-- ===== src/Pool/Options/Examples.antt =====
-- Pool limits at work: the default pool over a plan with the default sizes.
use csgdb.Prelude.{ℕ, ◌+◌, ◌*◌, ◌≤◌, ◌%◌, ◌≡◌, refl, none, arith, str, saturating_add}
use csgdb.Core.Error.{ok, err, invalid_pool_configuration}
use csgdb.Core.Flags.{contains}
use csgdb.Core.Open.{ResolvedOpenPlan, SecurityMode}
use csgdb.Pool.Options.{new, kib, validate_pool_options, pool_cache_bytes_per_connection}
use csgdb.Pool.Options.Bounds.{
  InRange, validate_pool_options_iff, pool_cache_bytes_per_connection_bounds,
  pool_cache_bytes_per_connection_largest,
}

abbrev plan : ResolvedOpenPlan
plan = record {
  path = str "agent.db";
  flags = 0xa6;
  security = SecurityMode.encrypted;
  busy_timeout = 5_000_000_000;
  cache_size_bytes = 16 * 1024 * 1024;
  memory_budget_bytes = 64 * 1024 * 1024;
  vfs = none;
  key = none;
}

default_accepted : validate_pool_options plan (new 2 64) ≡ ok tt
unfolding validate_pool_options new contains
default_accepted = refl

too_many_readers : validate_pool_options plan (new 65 64) ≡ err invalid_pool_configuration
unfolding validate_pool_options new
too_many_readers = refl

validate_pool_options_iff_example :
    (validate_pool_options plan (new 2 64) ≡ ok tt → InRange plan (new 2 64))
    × (InRange plan (new 2 64) → validate_pool_options plan (new 2 64) ≡ ok tt)
validate_pool_options_iff_example = validate_pool_options_iff plan (new 2 64)

pool_cache_bytes_per_connection_bounds_example :
    (1_048_576 * ((new 63 64).read_connections + 1) ≤ plan.memory_budget_bytes)
    × (1_048_576 ≤ plan.cache_size_bytes)
    × (kib ≤ 1_048_576)
    × (1_048_576 % kib ≡ 0)
unfolding validate_pool_options pool_cache_bytes_per_connection new contains saturating_add
pool_cache_bytes_per_connection_bounds_example =
    pool_cache_bytes_per_connection_bounds plan (new 63 64) 1_048_576 refl refl

pool_cache_bytes_per_connection_largest_example :
    (n : ℕ) × (pool_cache_bytes_per_connection plan (new 2 64) ≡ ok n) × (2_048 ≤ n)
unfolding new
pool_cache_bytes_per_connection_largest_example =
    pool_cache_bytes_per_connection_largest plan (new 2 64) 2_048 default_accepted (omega arith)
      refl (omega arith) (omega arith)
