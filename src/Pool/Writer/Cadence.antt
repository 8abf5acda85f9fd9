-- ===== src/Pool/Writer/Cadence.antt =====
-- crates/csgdb/src/pool.rs, `writer_main`: how many jobs the writer runs between two checkpoints.
use csgdb.Prelude.{
  ℕ, suc, ◌+◌, ◌*◌, ◌^◌, ◌≤◌, ◌<◌, ◌≡◌, refl, subst, Bool, true, false, length, List, [], ◌∷◌, some,
  All, arith, if◌then◌else◌,
}
use csgdb.Pool.Options.{PoolOptions, WalMaintenanceOptions, max_maintenance_interval_commits}
use csgdb.Pool.Runtime.{PoolMetrics, new}
use csgdb.Pool.Runtime.Cadence.{attempts, IsCalm, Cadence, after_write-Cadence}
use csgdb.Pool.Queue.{DequeuedWrite}
use csgdb.Pool.Group.{execute_group_commit}
use csgdb.Pool.Group.Channels.{execute_group_commit-checkpoints}
use csgdb.Pool.Writer.{
  Connection, Operation, Writer, Taken, callback, checkpoint_database, wal_autocheckpoint,
  automatic_wal_maintenance, main, activated, active, maintain, run_operation, run_dequeued,
  started,
}

abbrev once : Bool → ℕ
once b = if b then 1 else 0

module _ (c : Connection) {A : Type 0} where
  abbrev IsCallback : Operation c A → Type 0
  IsCallback (callback f) = Unit {0}
  IsCallback _ = ⊥

module _ (c : Connection) {R A : Type 0} where
  -- The body of the writer's loop, over jobs one after another.
  pub run_jobs : List (Taken c R A) → Writer c → Writer c
  run_jobs [] w = w
  run_jobs (job ∷ jobs) w = run_jobs jobs (run_dequeued c job w).1

  -- Whether a job counts for the interval: one that is not grouped as it says of itself, whatever its
  -- callback ends with, and a whole group once, if one of its jobs was committed.
  abbrev pub counted_job : Taken c R A → Writer c → ℕ
  counted_job (DequeuedWrite.exclusive job counts) w = once counts
  counted_job (DequeuedWrite.group jobs) w =
      once (execute_group_commit c.engine jobs (activated true w.metrics) w.database).0.committed

  pub counted_jobs : List (Taken c R A) → Writer c → ℕ
  counted_jobs [] w = 0
  counted_jobs (job ∷ jobs) w = counted_job job w + counted_jobs jobs (run_dequeued c job w).1

  -- A callback or a group, and no request that changes the policy or checkpoints by itself.
  abbrev pub IsWrite : Taken c R A → Type 0
  IsWrite (DequeuedWrite.exclusive job counts) = IsCallback c job.operation
  IsWrite (DequeuedWrite.group jobs) = Unit {0}

module _ (c : Connection) (o : WalMaintenanceOptions) where
  -- The writer after `n` jobs that count.
  abbrev Steady : ℕ → Writer c → Type 0
  Steady n w = Cadence (c.checkpoint (some main)) o n w.runtime w.metrics

  -- What leaves the policy and the counters of checkpoints as they are.
  moved :
      (n : ℕ) (w w' : Writer c)
      → w'.runtime ≡ w.runtime
      → attempts w'.metrics ≡ attempts w.metrics
      → Steady n w
      → Steady n w'
  moved n w w' same kept v = record {
    policy = rw same v.policy;
    calm = rw same v.calm;
    spaced = rw same (rw kept v.spaced);
    in_time = rw same v.in_time;
    few = rw kept v.few;
  }

  module _ (on : o.enabled ≡ true)
      (small : o.checkpoint_interval_commits ≤ max_maintenance_interval_commits)
      (calm : IsCalm (c.checkpoint (some main)) o) where
    maintain-Steady :
        (b : Bool) (n : ℕ) (w : Writer c)
        → n + once b < 2 ^ 64
        → Steady n w
        → Steady (n + once b) (maintain c b w)
    unfolding maintain
    maintain-Steady true n w h v =
        let next : suc n ≡ n + 1 = omega arith in
        subst (λ k. Steady k (maintain c true w)) next
          (after_write-Cadence (c.checkpoint (some main)) o n w.runtime w.metrics w.database on
            small calm (omega (arith, h)) v)
    maintain-Steady false n w h v =
        let same : n ≡ n + 0 = omega arith in subst (λ k. Steady k w) same v

module _ (c : Connection) (o : WalMaintenanceOptions) {A : Type 0} (on : o.enabled ≡ true)
    (small : o.checkpoint_interval_commits ≤ max_maintenance_interval_commits)
    (calm : IsCalm (c.checkpoint (some main)) o) where
  callback-Steady :
      (operation : Operation c A) (n : ℕ) (w : Writer c)
      → IsCallback c operation
      → Steady c o n w
      → Steady c o n (run_operation c operation (active c true w)).1
  unfolding run_operation
  callback-Steady (callback f) n w k v =
      moved c o n w (run_operation c (callback f) (active c true w)).1 refl refl v
  callback-Steady (checkpoint_database name mode) n w k v = absurd k
  callback-Steady (wal_autocheckpoint frames) n w k v = absurd k
  callback-Steady (automatic_wal_maintenance options) n w k v = absurd k

module _ (c : Connection) (o : WalMaintenanceOptions) {R A : Type 0} (on : o.enabled ≡ true)
    (small : o.checkpoint_interval_commits ≤ max_maintenance_interval_commits)
    (calm : IsCalm (c.checkpoint (some main)) o) where
  run_dequeued-Steady :
      (job : Taken c R A) (n : ℕ) (w : Writer c)
      → IsWrite c job
      → n + counted_job c job w < 2 ^ 64
      → Steady c o n w
      → Steady c o (n + counted_job c job w) (run_dequeued c job w).1
  unfolding run_dequeued
  run_dequeued-Steady (DequeuedWrite.exclusive job counts) n w k h v =
      let w₁ = (run_operation c job.operation (active c true w)).1 in
      moved c o (n + once counts) (maintain c counts w₁)
        (run_dequeued c (DequeuedWrite.exclusive job counts) w).1 refl refl
        (maintain-Steady c o on small calm counts n w₁ h
          (callback-Steady c o on small calm job.operation n w k v))
  run_dequeued-Steady (DequeuedWrite.group jobs) n w k h v =
      let (completion, m, db) =
        execute_group_commit c.engine jobs (activated true w.metrics) w.database in
      let w₁ : Writer c = record w { metrics = m; database = db } in
      let (runs, failures) =
        execute_group_commit-checkpoints c.engine jobs (activated true w.metrics) w.database in
      let kept : attempts m ≡ attempts w.metrics = rw runs (rw failures refl) in
      moved c o (n + once completion.committed) (maintain c completion.committed w₁)
        (run_dequeued c {R = R} {A = A} (DequeuedWrite.group jobs) w).1 refl refl
        (maintain-Steady c o on small calm completion.committed n w₁ h
          (moved c o n w w₁ refl kept v))

  run_jobs-Steady :
      (jobs : List (Taken c R A)) (n : ℕ) (w : Writer c)
      → All (IsWrite c) jobs
      → n + counted_jobs c jobs w < 2 ^ 64
      → Steady c o n w
      → Steady c o (n + counted_jobs c jobs w) (run_jobs c jobs w)
  unfolding run_jobs counted_jobs
  run_jobs-Steady [] n w k h v =
      let same : n ≡ n + 0 = omega arith in subst (λ x. Steady c o x w) same v
  run_jobs-Steady (job ∷ jobs) n w k h v =
      let here = counted_job c job w in
      let later = counted_jobs c jobs (run_dequeued c job w).1 in
      let sum : n + here + later ≡ n + (here + later) = omega arith in
      let first = run_dequeued-Steady job n w k.0 (omega (arith, h)) v in
      subst (λ x. Steady c o x (run_jobs c jobs (run_dequeued c job w).1)) sum
        (run_jobs-Steady jobs (n + here) (run_dequeued c job w).1 k.1 (omega (arith, h)) first)

once_le : (b : Bool) → once b ≤ 1
once_le true = omega arith
once_le false = omega arith

module _ (c : Connection) {R A : Type 0} where
  counted_job_le : (job : Taken c R A) (w : Writer c) → counted_job c job w ≤ 1
  counted_job_le (DequeuedWrite.exclusive job counts) w = once_le counts
  counted_job_le (DequeuedWrite.group jobs) w = once_le _

  counted_jobs_le : (jobs : List (Taken c R A)) (w : Writer c) → counted_jobs c jobs w ≤ length jobs
  unfolding counted_jobs
  counted_jobs_le [] w = omega arith
  counted_jobs_le (job ∷ jobs) w =
      let first = counted_job_le job w in
      let rest = counted_jobs_le jobs (run_dequeued c job w).1 in omega (arith, first, rest)

-- From its start, with automatic maintenance on, a positive interval within the accepted maximum and no
-- checkpoint counted before, and over any callbacks and groups, fewer than 2^64, that it runs one after
-- another: while no checkpoint leaves more than the soft limit behind, the writer attempts a checkpoint
-- after every `checkpoint_interval_commits` jobs that count, exactly. It has made as many attempts, failed
-- ones included, as whole intervals fit into the number of those jobs. A callback submitted as a write
-- counts even if it failed or panicked and committed nothing; a group counts once if it committed one of
-- its jobs.
pub run_jobs-cadence :
    (c : Connection) {R A : Type 0} (options : PoolOptions) (jobs : List (Taken c R A))
    (m : PoolMetrics) (db : c.engine.Db)
    → options.wal_maintenance.enabled ≡ true
    → 0 < options.wal_maintenance.checkpoint_interval_commits
    → options.wal_maintenance.checkpoint_interval_commits ≤ max_maintenance_interval_commits
    → IsCalm (c.checkpoint (some main)) options.wal_maintenance
    → All (IsWrite c) jobs
    → length jobs < 2 ^ 64
    → attempts m ≡ 0
    → let n = counted_jobs c jobs (started c options m db) in
      let interval = options.wal_maintenance.checkpoint_interval_commits in
      let tried = attempts (run_jobs c jobs (started c options m db)).metrics in
      (tried * interval ≤ n) × (n < (tried + 1) * interval)
unfolding new
run_jobs-cadence c options jobs m db on pos small calm k h z =
    let o = options.wal_maintenance in
    let fresh : Cadence (c.checkpoint (some main)) o 0 (new o) m = record {
      policy = refl;
      calm = refl;
      spaced = grind arith;
      in_time = pos;
      few = omega (arith, z);
    } in
    let few = counted_jobs_le c jobs (started c options m db) in
    let v =
      run_jobs-Steady c o on small calm jobs 0 (started c options m db) k (omega (arith, h, few))
        fresh in
    (omega (arith, v.spaced), grind (arith, v.spaced, v.in_time))
