-- ===== src/Pool/Runtime/Pressure.antt =====
-- What the counters say of the WAL, and how often the writer checkpoints.
use csgdb.Prelude.{
  none, some, fetch_add_exact, ℕ, ◌+◌, ◌^◌, ◌<◌, ◌≡◌, refl, map, Bool, false, not, ◌&&◌, List, [],
  ◌∷◌, arith, saturating_add, ltb, if◌then◌else◌, length,
}
use csgdb.Core.Error.{Result}
use csgdb.Core.Connection.{CheckpointMode, CheckpointResult, remaining_frames}
use csgdb.Pool.Options.{WalMaintenanceOptions}
use csgdb.Pool.Runtime.{
  PoolMetrics, WriterRuntime, pressure_of, record_checkpoint, after_write, run_wal_autocheckpoint,
  run_automatic_wal_maintenance,
}

-- The published flags are the writer's own, and a checkpoint is not overdue.
pub record Consistent (r : WriterRuntime) (m : PoolMetrics) : Type 0 where
  pub mode : m.automatic_maintenance_enabled ≡ r.maintenance.enabled
  pub published : m.wal_pressure_active ≡ r.wal_pressure
  pub interval : 0 < r.maintenance.checkpoint_interval_commits
  pub in_time : r.commits_since_maintenance < r.maintenance.checkpoint_interval_commits

module _ {Db : Type 0} (checkpoint : CheckpointMode → Db → Result CheckpointResult × Db) where
  -- The maintenance after a job that counts keeps the published mode and pressure equal to the writer's, and the count
  -- since the last maintenance below the interval, whatever the checkpoint reports.
  pub after_write-Consistent :
      (r : WriterRuntime) (m : PoolMetrics) (db : Db)
      → Consistent r m
      → let (r', m', db') = after_write checkpoint r m db in Consistent r' m'
  unfolding after_write record_checkpoint saturating_add
  after_write-Consistent r m db v = ground arith

  module _ (set_wal_autocheckpoint : ℕ → Db → Result (Unit {0}) × Db) where
    -- So do the two requests that change the policy, whether the engine accepts them or not; valid
    -- options have a positive interval.
    pub switch-Consistent :
        (r : WriterRuntime) (m : PoolMetrics) (db : Db) (frames : ℕ) (o : WalMaintenanceOptions)
        → 0 < o.checkpoint_interval_commits
        → Consistent r m
        → let (_, r', m', _) = run_wal_autocheckpoint set_wal_autocheckpoint frames r m db in
          let (_, r'', m'', _) = run_automatic_wal_maintenance set_wal_autocheckpoint o r m db in
          Consistent r' m' × Consistent r'' m''
    unfolding run_wal_autocheckpoint run_automatic_wal_maintenance
    switch-Consistent r m db frames o pos v = (ground arith, ground arith)

-- More than so many frames of the WAL are not yet in the database, as the checkpoint reports them.
abbrev pub over : ℕ → CheckpointResult → Bool
over limit result = elim result.wal_frames [
  | none ↦ false
  | some frames ↦ elim result.checkpointed_frames [
    | none ↦ false
    | some done ↦ ltb (limit + done) frames
  ]
]

pressure_of-over :
    (o : WalMaintenanceOptions) (result : CheckpointResult)
    → pressure_of o result ≡ over o.wal_soft_limit_frames result
unfolding pressure_of remaining_frames
pressure_of-over o result = ground arith

-- The rising edges of a signal that starts at `before`.
abbrev pub rises : Bool → List Bool → ℕ
rises before [] = 0
rises before (b ∷ bs) = (if b && not before then 1 else 0) + rises b bs

-- The checkpoints of a writer, automatic or requested, one after another.
pub record_all :
    WriterRuntime → PoolMetrics → List (CheckpointResult × Bool) → WriterRuntime × PoolMetrics
record_all r m [] = (r, m)
record_all r m ((result, automatic) ∷ rest) =
    let (r', m') = record_checkpoint r m result automatic in record_all r' m' rest

record_checkpoint_step :
    (r : WriterRuntime) (m : PoolMetrics) (result : CheckpointResult) (automatic : Bool)
    → m.wal_pressure_events + 1 < 2 ^ 64
    → m.checkpoint_runs + 1 < 2 ^ 64
    → let (r', m') = record_checkpoint r m result automatic in
      (r'.maintenance ≡ r.maintenance)
      × (r'.wal_pressure ≡ pressure_of r.maintenance result)
      × (m'.wal_pressure_events
          ≡ m.wal_pressure_events
            + (if pressure_of r.maintenance result && not r.wal_pressure then 1 else 0))
      × (m'.checkpoint_runs ≡ m.checkpoint_runs + 1)
unfolding record_checkpoint
record_checkpoint_step r m result automatic h k = (
  refl,
  refl,
  ground (arith, fetch_add_exact m.wal_pressure_events 1),
  fetch_add_exact m.checkpoint_runs 1 k,
)

-- Over any sequence of checkpoints, automatic or requested, `wal_pressure_events` counts the times that
-- a checkpoint left more frames out of the database than the soft limit while the one before had not,
-- and `checkpoint_runs` counts the checkpoints. Neither counter wraps meanwhile.
pub record_checkpoint-events :
    (r : WriterRuntime) (m : PoolMetrics) (results : List (CheckpointResult × Bool))
    → m.wal_pressure_events + length results < 2 ^ 64
    → m.checkpoint_runs + length results < 2 ^ 64
    → let (r', m') = record_all r m results in
      (m'.wal_pressure_events
        ≡ m.wal_pressure_events
          + rises r.wal_pressure (
              map
                (λ (x : CheckpointResult × Bool). over (r.maintenance).wal_soft_limit_frames x.0)
                results))
      × (m'.checkpoint_runs ≡ m.checkpoint_runs + length results)
unfolding record_all
record_checkpoint-events r m [] h k = omega arith
record_checkpoint-events r m ((result, automatic) ∷ rest) h k =
    let b = pressure_of-over r.maintenance result in
    let (r', m') = record_checkpoint r m result automatic in
    let step = record_checkpoint_step r m result automatic (omega arith) (omega arith) in
    let ih = record_checkpoint-events r' m' rest (ground (arith, step.2)) (omega (arith, step.3)) in
    let edges = simp (step.0, step.1, b) at ih.0 in
    (omega (arith, edges, simp b at step.2), omega (arith, ih.1, step.3))
