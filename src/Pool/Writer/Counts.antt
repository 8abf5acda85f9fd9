-- ===== src/Pool/Writer/Counts.antt =====
-- crates/csgdb/src/pool.rs, `writer_main`: the counter of completed jobs is that of the answers.
use csgdb.Prelude.{
  ℕ, ◌+◌, ◌%◌, ◌^◌, ◌<◌, ◌≡◌, refl, Bool, true, false, List, [], ◌∷◌, Option, some, none, length,
  length-append, length-map, fetch_add, arith,
}
use csgdb.Core.Error.{Result, ok, err}
use csgdb.Core.Connection.{CheckpointResult}
use csgdb.Pool.Options.{PoolOptions}
use csgdb.Pool.Runtime.{PoolMetrics, record_checkpoint}
use csgdb.Pool.Runtime.Jobs.{
  after_write-SameJobs, run_wal_autocheckpoint-SameJobs, run_automatic_wal_maintenance-SameJobs,
}
use csgdb.Pool.Queue.{DequeuedWrite, Popped, pop}
use csgdb.Pool.Group.{GroupableWrite, execute_group_commit}
use csgdb.Pool.Group.Channels.{execute_group_commit-completed}
use csgdb.Pool.Writer.{
  ExclusiveWrite, Connection, Operation, Writer, Taken, JobQueue, Events, Sent, Progress, Answer,
  callback, checkpoint_database, wal_autocheckpoint, automatic_wal_maintenance, main,
  after_checkpoint, run_operation, maintain, active, activated, settle, run_dequeued, after_value,
  after_pop, writer_loop, writer_main, started,
}

abbrev jobs_completed : (c : Connection) → Writer c → ℕ
jobs_completed c w = (w.metrics).write_jobs_completed

module _ (c : Connection) (A : Type 0) where
  after_checkpoint-completed :
      (w : Writer c) (r : Result CheckpointResult × c.engine.Db)
      → let p : Answer A × Writer c = after_checkpoint c w r in
        jobs_completed c p.1 ≡ jobs_completed c w
  unfolding record_checkpoint
  after_checkpoint-completed w (ok result, db) = refl
  after_checkpoint-completed w (err e, db) = refl

module _ (c : Connection) {A : Type 0} where
  run_operation-completed :
      (o : Operation c A) (w : Writer c)
      → jobs_completed c (run_operation c o w).1 ≡ jobs_completed c w
  unfolding run_operation
  run_operation-completed (callback f) w = refl
  run_operation-completed (checkpoint_database name mode) w =
      after_checkpoint-completed c A w (c.checkpoint name mode w.database)
  run_operation-completed (wal_autocheckpoint frames) w =
      (run_wal_autocheckpoint-SameJobs c.set_wal_autocheckpoint frames w.runtime w.metrics
        w.database).0
  run_operation-completed (automatic_wal_maintenance options) w =
      (run_automatic_wal_maintenance-SameJobs c.set_wal_autocheckpoint options w.runtime w.metrics
        w.database).0

maintain-completed :
    (c : Connection) (counts : Bool) (w : Writer c)
    → jobs_completed c (maintain c counts w) ≡ jobs_completed c w
unfolding maintain
maintain-completed c true w =
    (after_write-SameJobs (c.checkpoint (some main)) w.runtime w.metrics w.database).0
maintain-completed c false w = refl

module _ (c : Connection) {R A : Type 0} where
  -- The counter has moved by the number of answers, as a 64-bit counter does.
  abbrev pub Counts : ℕ → Sent R A → Writer c → Type 0
  Counts before sent w = jobs_completed c w ≡ (before + length sent) % 2 ^ 64

  run_dequeued-Counts :
      (job : Taken c R A) (w : Writer c)
      → Counts (jobs_completed c w) (run_dequeued c job w).0 (run_dequeued c job w).1
  unfolding run_dequeued fetch_add
  run_dequeued-Counts (DequeuedWrite.exclusive job counts) w =
      let w₁ = (run_operation c job.operation (active c true w)).1 in
      omega (
        arith,
        maintain-completed c counts w₁,
        run_operation-completed c job.operation (active c true w),
      )
  run_dequeued-Counts (DequeuedWrite.group jobs) w =
      let m = activated true w.metrics in
      let (completion, m', db) = execute_group_commit c.engine jobs m w.database in
      let (count, answers) = execute_group_commit-completed c.engine jobs m w.database in
      let kept =
        maintain-completed c completion.committed (record w { metrics = m'; database = db }) in
      let sent =
        length-map {B = R × Answer A} completion.responses (λ r. (r.0, Answer.changes r.1)) in
      omega (arith, count, answers, kept, sent)

  module _ (max_jobs : ℕ) where
    after_value-Counts :
        (value : Option (Taken c R A)) (s : JobQueue c R A) (es : Events c R A) (w : Writer c)
        (go_on : JobQueue c R A → Writer c → Progress c R A)
        → jobs_completed c w < 2 ^ 64
        → ((s' : JobQueue c R A) (w' : Writer c)
            → jobs_completed c w' < 2 ^ 64
            → Counts (jobs_completed c w') (go_on s' w').sent (go_on s' w').writer)
        → let p = after_value c max_jobs value s es w go_on in
          Counts (jobs_completed c w) p.sent p.writer
    after_value-Counts none s es w go_on b h = omega (arith, b)
    after_value-Counts (some job) s es w go_on b h =
        let (first, w') = run_dequeued c job w in
        let here = run_dequeued-Counts job w in
        let there = h (settle es s) w' (omega (arith, here)) in
        omega (arith, here, there, length-append first (go_on (settle es s) w').sent)

    after_pop-Counts :
        (s : JobQueue c R A) (w : Writer c)
        (r : Option (Popped (ExclusiveWrite c R A) (GroupableWrite R) (Option (Taken c R A))))
        (go_on : JobQueue c R A → Writer c → Progress c R A)
        → jobs_completed c w < 2 ^ 64
        → ((s' : JobQueue c R A) (w' : Writer c)
            → jobs_completed c w' < 2 ^ 64
            → Counts (jobs_completed c w') (go_on s' w').sent (go_on s' w').writer)
        → let p = after_pop c max_jobs s w r go_on in Counts (jobs_completed c w) p.sent p.writer
    after_pop-Counts s w none go_on b h = omega (arith, b)
    after_pop-Counts s w (some p) go_on b h =
        after_value-Counts p.value p.state p.events w go_on b h

    writer_loop-Counts :
        (turns : List (Events c R A)) (s : JobQueue c R A) (w : Writer c)
        → jobs_completed c w < 2 ^ 64
        → let p = writer_loop c max_jobs turns s w in Counts (jobs_completed c w) p.sent p.writer
    unfolding writer_loop
    writer_loop-Counts [] s w b = omega (arith, b)
    writer_loop-Counts (es ∷ turns) s w b =
        after_pop-Counts s w (pop max_jobs s es) (writer_loop c max_jobs turns) b
          (writer_loop-Counts turns)

-- The counter of completed jobs has moved by the number of answers sent, modulo 2^64, whatever the jobs
-- were: callbacks, panics, checkpoints, or groups that failed.
pub writer_main-Counts :
    (c : Connection) {R A : Type 0} (options : PoolOptions) (turns : List (Events c R A))
    (s : JobQueue c R A) (m : PoolMetrics) (db : c.engine.Db)
    → m.write_jobs_completed < 2 ^ 64
    → let p = writer_main c options turns s m db in
      p.writer.metrics.write_jobs_completed ≡ (m.write_jobs_completed + length p.sent) % 2 ^ 64
unfolding writer_main
writer_main-Counts c options turns s m db b =
    writer_loop-Counts c (options.group_commit).max_jobs turns s (started c options m db) b
