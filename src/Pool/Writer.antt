-- ===== src/Pool/Writer.antt =====
-- crates/csgdb/src/pool.rs: the writer's thread (`writer_main`), and the jobs that `write_internal` and
-- `submit_groupable` hand to it. The connection is the engine's, a parameter. A boxed operation is one
-- of the four that the code makes; a user's callback is a function that may panic.
pub mod Submit
pub mod Order
pub mod Drain
pub mod Counts
pub mod Cadence
mod Examples
use csgdb.Prelude.{
  ℕ, Bool, true, false, not, ◌&&◌, ◌||◌, List, [], ◌∷◌, ◌++◌, map, Option, none, some, Str,
  fetch_add, if◌then◌else◌,
}
use csgdb.Core.Error.{
  ErrorCode, Result, ok, err, write_task_panicked, write_queue_full, write_queue_timeout,
  connection_manager_closed,
}
use csgdb.Core.Connection.{CheckpointMode, CheckpointResult}
use csgdb.Pool.Options.{PoolOptions, WalMaintenanceOptions}
use csgdb.Pool.Runtime.{
  PoolMetrics, WriterRuntime, new, record_checkpoint, after_write, run_wal_autocheckpoint,
  run_automatic_wal_maintenance,
}
use csgdb.Pool.Reentry.{ThreadState, admits_write}
use csgdb.Pool.Queue.{
  WriteJob, DequeuedWrite, WriteBackpressure, WriteQueueState, Wake, Event, Popped, push, pop, late,
  woken,
}
use csgdb.Pool.Group.{Engine, GroupableWrite, GroupCommitCompletion, execute_group_commit}

-- What a callback that runs under `catch_unwind` ends with.
pub data Unwound (A : Type 0) : Type 0 where
  returned : Result A → Unwound A
  panicked : Unwound A

abbrev pub caught : {A : Type 0} → Unwound A → Result A
caught (returned result) = result
caught panicked = err write_task_panicked

-- The connection, with what the writer calls beside the group commit. `checkpoint` takes the name of an
-- attached database, or none for all of them.
pub record Connection : Type 1 where
  pub engine : Engine
  pub checkpoint : Option Str → CheckpointMode → engine.Db → Result CheckpointResult × engine.Db
  pub set_wal_autocheckpoint : ℕ → engine.Db → Result (Unit {0}) × engine.Db
  pub close : engine.Db → Result (Unit {0})

-- What goes back to a submitter; `A` is what callbacks return.
pub data Answer (A : Type 0) : Type 0 where
  value : Result A → Answer A
  checkpointed : Result CheckpointResult → Answer A
  switched : Result (Unit {0}) → Answer A
  changes : Result (List ℕ) → Answer A

-- The operations of the exclusive jobs.
pub data Operation (c : Connection) (A : Type 0) : Type 0 where
  callback : (c.engine.Db → Unwound A × c.engine.Db) → Operation c A
  checkpoint_database : Option Str → CheckpointMode → Operation c A
  wal_autocheckpoint : ℕ → Operation c A
  automatic_wal_maintenance : WalMaintenanceOptions → Operation c A

-- With the channel on which the submitter waits.
pub record ExclusiveWrite (c : Connection) (R A : Type 0) : Type 0 where
  pub operation : Operation c A
  pub response : R

-- The writer's thread: its thread-local flag, its policy, and the counters and the connection.
pub record Writer (c : Connection) : Type 0 where
  pub in_write_worker : Bool
  pub runtime : WriterRuntime
  pub metrics : PoolMetrics
  pub database : c.engine.Db

abbrev pub main : Str
main = 109 ∷ 97 ∷ 105 ∷ 110 ∷ []

abbrev pub activated : Bool → PoolMetrics → PoolMetrics
activated active m = record m { writer_active = active }

module _ (c : Connection) {A : Type 0} where
  -- `database.checkpoint_database(..)?` and what follows it.
  abbrev pub after_checkpoint :
      Writer c → Result CheckpointResult × c.engine.Db → Answer A × Writer c
  after_checkpoint w (ok result, db) =
      let (r, m) = record_checkpoint w.runtime w.metrics result false in
      (Answer.checkpointed (ok result), record w { runtime = r; metrics = m; database = db })
  after_checkpoint w (err e, db) = (Answer.checkpointed (err e), record w { database = db })

  abbrev pub after_switch :
      Writer c → Result (Unit {0}) × WriterRuntime × PoolMetrics × c.engine.Db → Answer A × Writer c
  after_switch w (result, r, m, db) =
      (Answer.switched result, record w { runtime = r; metrics = m; database = db })

  -- `operation(&mut database, &mut runtime)`
  pub run_operation : Operation c A → Writer c → Answer A × Writer c
  run_operation (callback f) w =
      let (unwound, db) = f w.database in
      (Answer.value (caught unwound), record w { database = db })
  run_operation (checkpoint_database name mode) w =
      after_checkpoint w (c.checkpoint name mode w.database)
  run_operation (wal_autocheckpoint frames) w =
      after_switch w
        (run_wal_autocheckpoint c.set_wal_autocheckpoint frames w.runtime w.metrics w.database)
  run_operation (automatic_wal_maintenance options) w = after_switch w (
      run_automatic_wal_maintenance c.set_wal_autocheckpoint options w.runtime w.metrics w.database)

-- `runtime.after_write(&database, metrics)`, if the job counts; its checkpoint is that of `main`.
pub maintain : (c : Connection) → Bool → Writer c → Writer c
maintain c counts w =
    let (r, m, db) = after_write (c.checkpoint (some main)) w.runtime w.metrics w.database in
    if counts then record w { runtime = r; metrics = m; database = db } else w

-- The jobs of a queue, and what the writer sends.
abbrev pub Job : (c : Connection) (R A : Type 0) → Type 0
Job c R A = WriteJob (ExclusiveWrite c R A) (GroupableWrite R)

abbrev pub Taken : (c : Connection) (R A : Type 0) → Type 0
Taken c R A = DequeuedWrite (ExclusiveWrite c R A) (GroupableWrite R)

abbrev pub JobQueue : (c : Connection) (R A : Type 0) → Type 0
JobQueue c R A = WriteQueueState (ExclusiveWrite c R A) (GroupableWrite R)

abbrev pub Events : (c : Connection) (R A : Type 0) → Type 0
Events c R A = List (Event (ExclusiveWrite c R A) (GroupableWrite R))

abbrev pub Sent : (R A : Type 0) → Type 0
Sent R A = List (R × Answer A)

abbrev pub completed : (c : Connection) → ℕ → Writer c → Writer c
completed c jobs w = record w {
  metrics = record (w.metrics) {
    write_jobs_completed = fetch_add (w.metrics).write_jobs_completed jobs;
  };
}

abbrev pub active : (c : Connection) → Bool → Writer c → Writer c
active c on w = record w { metrics = activated on w.metrics }

module _ (c : Connection) {R A : Type 0} where
  abbrev pub sent_of : List (R × Result (List ℕ)) → Sent R A
  sent_of responses = map (λ r. (r.0, Answer.changes r.1)) responses

  abbrev pub finish_group :
      GroupCommitCompletion R × PoolMetrics × c.engine.Db → Writer c → Sent R A × Writer c
  finish_group (completion, m, db) w = (
    sent_of completion.responses,
    active c false (maintain c completion.committed (record w { metrics = m; database = db })),
  )

  -- The body of the loop of `writer_main`.
  pub run_dequeued : Taken c R A → Writer c → Sent R A × Writer c
  unfolding maintain
  run_dequeued (DequeuedWrite.exclusive job counts) w =
      let (answer, w') = run_operation c job.operation (active c true w) in
      ((job.response, answer) ∷ [], active c false (completed c 1 (maintain c counts w')))
  run_dequeued (DequeuedWrite.group jobs) w =
      finish_group (execute_group_commit c.engine jobs (activated true w.metrics) w.database) w

-- Where the writer's thread is: before a `pop`, waiting in one, or at its end, with the result.
pub data Phase : Type 0 where
  ready waiting : Phase
  stopped : Result (Unit {0}) → Phase

pub record Progress (c : Connection) (R A : Type 0) : Type 0 where
  pub phase : Phase
  pub sent : Sent R A
  pub queue : JobQueue c R A
  pub writer : Writer c

-- What other threads do while the writer is busy: an open queue takes their jobs, and may be closed.
unfoldable pub settle :
    {E G : Type 0} → List (Event E G) → WriteQueueState E G → WriteQueueState E G
settle [] s = s
settle (late ∷ es) s = settle es s
settle (woken arrived closed timed_out ∷ es) s =
    settle es
      (if s.accepting then record { jobs = s.jobs ++ arrived; accepting = not closed } else s)

module _ (c : Connection) {R A : Type 0} (max_jobs : ℕ) where
  abbrev sends : Sent R A → Progress c R A → Progress c R A
  sends first p = record p { sent = first ++ p.sent }

  abbrev stop : JobQueue c R A → Writer c → Progress c R A
  stop s w = record {
    phase = stopped (c.close w.database);
    sent = [];
    queue = s;
    writer = record w { in_write_worker = false };
  }

  abbrev pub after_value :
      Option (Taken c R A)
      → JobQueue c R A
      → Events c R A
      → Writer c
      → (JobQueue c R A → Writer c → Progress c R A)
      → Progress c R A
  after_value none s es w go_on = stop s w
  after_value (some job) s es w go_on =
      let (first, w') = run_dequeued c job w in sends first (go_on (settle es s) w')

  abbrev pub after_pop :
      JobQueue c R A
      → Writer c
      → Option (Popped (ExclusiveWrite c R A) (GroupableWrite R) (Option (Taken c R A)))
      → (JobQueue c R A → Writer c → Progress c R A)
      → Progress c R A
  after_pop s w none go_on = record { phase = waiting; sent = []; queue = s; writer = w }
  after_pop s w (some p) go_on = after_value p.value p.state p.events w go_on

  -- The loop of `writer_main`. Each turn has its list of events: those that `pop` does not wait for
  -- happen while the job runs. Where the turns end the writer is before its next `pop`.
  unfoldable pub writer_loop : List (Events c R A) → JobQueue c R A → Writer c → Progress c R A
  writer_loop [] s w = record { phase = ready; sent = []; queue = s; writer = w }
  writer_loop (es ∷ turns) s w = after_pop s w (pop max_jobs s es) (writer_loop turns)

-- The thread as it starts.
abbrev pub started : (c : Connection) → PoolOptions → PoolMetrics → c.engine.Db → Writer c
started c options m db = record {
  in_write_worker = true;
  runtime = new options.wal_maintenance;
  metrics = m;
  database = db;
}

unfoldable pub writer_main :
    (c : Connection)
    → {R A : Type 0} (options : PoolOptions) → List (Events c R A)
    → JobQueue c R A
    → PoolMetrics
    → c.engine.Db
    → Progress c R A
writer_main c options turns s m db =
    writer_loop c (options.group_commit).max_jobs turns s (started c options m db)

-- The counters that a submission moves.
abbrev pub count_submission : Result (Unit {0}) → PoolMetrics → PoolMetrics
count_submission (ok _) m = record m { write_jobs_submitted = fetch_add m.write_jobs_submitted 1 }
count_submission (err write_queue_full) m = record m {
  write_jobs_rejected = fetch_add m.write_jobs_rejected 1;
}
count_submission (err write_queue_timeout) m = record m {
  write_jobs_rejected = fetch_add m.write_jobs_rejected 1;
}
count_submission (err e) m = m

module _ {E G : Type 0} where
  abbrev pub counted :
      PoolMetrics
      → Option (Result (Unit {0}) × WriteQueueState E G)
      → Option (Result (Unit {0}) × WriteQueueState E G × PoolMetrics)
  counted m none = none
  counted m (some (r, s)) = some (r, s, count_submission r m)

  abbrev pub checked :
      WriteQueueState E G
      → PoolMetrics
      → Result (Unit {0})
      → Option (Result (Unit {0}) × WriteQueueState E G × PoolMetrics)
      → Option (Result (Unit {0}) × WriteQueueState E G × PoolMetrics)
  checked s m (err e) pushed = some (err e, s, m)
  checked s m (ok _) pushed = pushed

  -- `write_internal` and `submit_groupable`, up to the wait for the answer: the check for a nested call
  -- on the submitting thread, the push, and the counters. `none` is still waiting for room.
  unfoldable pub submit :
      (capacity pool : ℕ)
      → ThreadState
      → WriteJob E G
      → WriteBackpressure
      → WriteQueueState E G
      → PoolMetrics
      → List (Wake E G)
      → Option (Result (Unit {0}) × WriteQueueState E G × PoolMetrics)
  submit capacity pool thread job policy s m wakes =
      checked s m (admits_write pool thread) (counted m (push capacity job policy s wakes))

-- `response_rx.recv()`: a channel that is closed without an answer means that the writer has stopped.
abbrev pub received : {A : Type 0} → Option (Result A) → Result A
received none = err connection_manager_closed
received (some result) = result

abbrev pub first_changes : Result (List ℕ) → Result ℕ
first_changes (err e) = err e
first_changes (ok []) = ok 0
first_changes (ok (n ∷ rest)) = ok n
