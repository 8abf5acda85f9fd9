-- ===== src/Pool/Writer/Examples.antt =====
-- Runs of the writer: its connection is a number that every statement adds one to, channels are numbers.
use csgdb.Prelude.{
  ℕ, suc, ◌+◌, ◌%◌, ◌*◌, ◌≤◌, ◌<◌, ◌^◌, ◌≡◌, refl, true, false, List, [], ◌∷◌, ◌++◌, none, some,
  str, length, arith,
}
use csgdb.Core.Error.{ok}
use csgdb.Core.Connection.{passive, remaining_frames}
use csgdb.Pool.Options.{PoolOptions}
use csgdb.Pool.Runtime.{PoolMetrics}
use csgdb.Pool.Runtime.Cadence.{IsCalm, attempts}
use csgdb.Pool.Reentry.{ThreadState}
use csgdb.Pool.Queue.{DequeuedWrite, Wake, exclusive, groupable, woken, close, timeout}
use csgdb.Pool.Queue.Accepted.{accepted, all_events}
use csgdb.Pool.Group.{Engine, GroupableWrite}
use csgdb.Pool.Writer.{
  Connection, Taken, main, started, ExclusiveWrite, JobQueue, Events, Job, panicked, callback,
  checkpoint_database, writer_main, stopped, submit,
}
use csgdb.Pool.Writer.Order.{Answered, answered, writer_main-Answered}
use csgdb.Pool.Writer.Drain.{writer_main-drains}
use csgdb.Pool.Writer.Counts.{writer_main-Counts}
use csgdb.Pool.Writer.Cadence.{counted_jobs, run_jobs, run_jobs-cadence}
use csgdb.Pool.Writer.Submit.{Submitted, submit_outcome}

abbrev counting : Engine
counting = record {
  Db = ℕ;
  begin = λ d. (ok tt, d);
  execute_batch = λ sql d. (ok tt, d);
  execute_values = λ sql ps d. (ok 1, suc d);
  commit = λ d. (ok tt, d);
  abandon = λ d. d;
}

abbrev connection : Connection
connection = record {
  engine = counting;
  checkpoint = λ name mode d.
      (ok (record { wal_frames = some 9; checkpointed_frames = some 9; busy = false }), d);
  set_wal_autocheckpoint = λ frames d. (ok tt, d);
  close = λ d. ok tt;
}

abbrev options : PoolOptions
options = record {
  read_connections = 1;
  write_queue_capacity = 4;
  group_commit = record { max_jobs = 8; max_delay = 0 };
  wal_maintenance = record {
    enabled = true;
    checkpoint_interval_commits = 1;
    wal_soft_limit_frames = 5;
  };
}

abbrev no_metrics : PoolMetrics
no_metrics = record {
  writer_active = false;
  write_jobs_submitted = 0;
  write_jobs_completed = 0;
  write_jobs_rejected = 0;
  group_commit_transactions = 0;
  grouped_write_jobs = 0;
  largest_group_commit = 0;
  checkpoint_runs = 0;
  automatic_checkpoint_runs = 0;
  incomplete_checkpoints = 0;
  maintenance_failures = 0;
  wal_pressure_events = 0;
  wal_pressure_active = false;
  automatic_maintenance_enabled = true;
  last_observed_wal_frames = 0;
  last_remaining_wal_frames = 0;
}

abbrev grouped : ℕ → GroupableWrite ℕ
grouped channel = record {
  statements = record { sql = str "INSERT"; parameters = [] } ∷ [];
  response = channel;
}

abbrev write_on : ℕ → Job connection ℕ ℕ
write_on channel = groupable (grouped channel)

abbrev panic_on : ℕ → Job connection ℕ ℕ
panic_on channel =
    exclusive (record { operation = callback (λ d. (panicked, suc d)); response = channel }) true

abbrev checkpoint_on : ℕ → Job connection ℕ ℕ
checkpoint_on channel =
    exclusive (record { operation = checkpoint_database none passive; response = channel }) false

abbrev queue : JobQueue connection ℕ ℕ
queue = record {
  jobs = write_on 1 ∷ write_on 2 ∷ panic_on 3 ∷ checkpoint_on 4 ∷ [];
  accepting = true;
}

abbrev quiet : List (Events connection ℕ ℕ)
quiet = [] ∷ [] ∷ [] ∷ [] ∷ [] ∷ []

-- The two writes are one group, and a fifth job comes while the panicking callback runs.
abbrev busy : List (Events connection ℕ ℕ)
busy = [] ∷ (woken (write_on 5 ∷ []) true false ∷ []) ∷ [] ∷ [] ∷ [] ∷ []

writer_main-drains_example :
    let p = writer_main connection options quiet (close queue) no_metrics 0 in
    (p.phase ≡ stopped (ok tt))
    × (p.writer.in_write_worker ≡ false)
    × (answered p.sent ≡ 1 ∷ 2 ∷ 3 ∷ 4 ∷ [])
writer_main-drains_example =
    writer_main-drains connection options quiet queue no_metrics 0 (omega arith) (omega arith)

writer_main-Answered_example :
    Answered connection
      (queue.jobs ++ accepted true (all_events busy))
      (writer_main connection options busy queue no_metrics 0)
writer_main-Answered_example =
    writer_main-Answered connection options busy queue no_metrics 0 (omega arith)

writer_main-Counts_example :
    let p = writer_main connection options busy queue no_metrics 0 in
    p.writer.metrics.write_jobs_completed ≡ (0 + length p.sent) % 2 ^ 64
writer_main-Counts_example =
    writer_main-Counts connection options busy queue no_metrics 0 (omega arith)

abbrev idle : ThreadState
idle = record { in_writer = false; pools = [] }

abbrev full_then_room : List (Wake (ExclusiveWrite connection ℕ ℕ) (GroupableWrite ℕ))
full_then_room = record { state = close queue; timed_out = false; elapsed = 5 } ∷ []

submit_outcome_example :
    Submitted 4
      (write_on 6)
      1
      idle
      queue
      no_metrics
      full_then_room
      (submit 4 1 idle (write_on 6) (timeout 10) queue no_metrics full_then_room)
submit_outcome_example =
    submit_outcome 4 1 idle (write_on 6) (timeout 10) queue no_metrics full_then_room

abbrev every_second : PoolOptions
every_second = record options {
  wal_maintenance = record {
    enabled = true;
    checkpoint_interval_commits = 2;
    wal_soft_limit_frames = 5;
  };
}

abbrev panic : Taken connection ℕ ℕ
panic =
    DequeuedWrite.exclusive (record { operation = callback (λ d. (panicked, suc d)); response = 3 })
      true

-- Two writes in a group, then three callbacks that panic.
abbrev taken : List (Taken connection ℕ ℕ)
taken = DequeuedWrite.group (grouped 1 ∷ grouped 2 ∷ []) ∷ panic ∷ panic ∷ panic ∷ []

calm_enough : IsCalm (connection.checkpoint (some main)) every_second.wal_maintenance
unfolding remaining_frames
calm_enough db result e = ground (arith, e)

run_jobs-cadence_example :
    let n = counted_jobs connection taken (started connection every_second no_metrics 0) in
    let tried =
      attempts (run_jobs connection taken (started connection every_second no_metrics 0)).metrics in
    (tried * 2 ≤ n) × (n < (tried + 1) * 2)
run_jobs-cadence_example =
    run_jobs-cadence connection every_second taken no_metrics 0 refl (omega arith) (omega arith)
      calm_enough (tt, (tt, (tt, (tt, tt)))) (omega arith) refl
