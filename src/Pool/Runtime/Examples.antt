-- ===== src/Pool/Runtime/Examples.antt =====
-- The writer's maintenance with a checkpoint that always leaves the same number of frames behind; the
-- state counts the checkpoints.
use csgdb.Prelude.{ℕ, ◌+◌, ◌≡◌, refl, Bool, true, false, List, [], ◌∷◌, length, map, some, arith}
use csgdb.Core.Error.{Result, ok}
use csgdb.Core.Connection.{CheckpointMode, CheckpointResult}
use csgdb.Pool.Options.{WalMaintenanceOptions}
use csgdb.Pool.Runtime.{PoolMetrics, new, after_write}
use csgdb.Pool.Runtime.Pressure.{
  Consistent, after_write-Consistent, rises, over, record_all, record_checkpoint-events,
}

abbrev report : ℕ → CheckpointResult
report frames = record { wal_frames = some frames; checkpointed_frames = some 0; busy = false }

abbrev leaves : ℕ → CheckpointMode → ℕ → Result CheckpointResult × ℕ
leaves frames mode runs = (ok (report frames), runs + 1)

abbrev policy : WalMaintenanceOptions
policy = record { enabled = true; checkpoint_interval_commits = 2; wal_soft_limit_frames = 5 }

abbrev metrics : PoolMetrics
metrics = record {
  writer_active = false;
  write_jobs_submitted = 0;
  write_jobs_completed = 0;
  write_jobs_rejected = 0;
  group_commit_transactions = 0;
  grouped_write_jobs = 0;
  largest_group_commit = 0;
  checkpoint_runs = 0;
  automatic_checkpoint_runs = 0;
  incomplete_checkpoints = 0;
  maintenance_failures = 0;
  wal_pressure_events = 0;
  wal_pressure_active = false;
  automatic_maintenance_enabled = true;
  last_observed_wal_frames = 0;
  last_remaining_wal_frames = 0;
}

fresh : Consistent (new policy) metrics
unfolding new
fresh = record { mode = refl; published = refl; interval = omega arith; in_time = omega arith }

after_write-Consistent_example :
    let (r, m, db) = after_write (leaves 9) (new policy) metrics 0 in Consistent r m
after_write-Consistent_example = after_write-Consistent (leaves 9) (new policy) metrics 0 fresh

abbrev checkpoints : List (CheckpointResult × Bool)
checkpoints = (report 9, true) ∷ (report 8, false) ∷ (report 3, true) ∷ (report 6, true) ∷ []

record_checkpoint-events_example :
    let (r, m) = record_all (new policy) metrics checkpoints in
    (m.wal_pressure_events
      ≡ 0
        + rises
            (new policy).wal_pressure
            (map (λ (x : CheckpointResult × Bool). over 5 x.0) checkpoints))
    × (m.checkpoint_runs ≡ 0 + length checkpoints)
unfolding new
record_checkpoint-events_example =
    record_checkpoint-events (new policy) metrics checkpoints (omega arith) (omega arith)
