-- ===== src/Pool/Group.antt =====
-- crates/csgdb/src/pool.rs: the group commit. Adjacent write jobs share one transaction of the writer's
-- connection, each inside its own savepoint. The connection is that of the storage engine, a parameter
-- here: `Db` is its state, and every call returns the new one.
pub mod Laws
pub mod Job
pub mod Answers
pub mod Loop
pub mod Atomic
pub mod Channels
mod Examples
use csgdb.Prelude.{
  ℕ, max, Bool, true, false, ◌||◌, List, [], ◌∷◌, map, Option, none, some, Str, str, length, ltb,
  fetch_add, if◌then◌else◌,
}
use csgdb.Core.Error.{ErrorCode, Result, ok, err, is_ok, ◌>>=◌}
use csgdb.Core.Value.{Value}
use csgdb.Pool.Runtime.{PoolMetrics}

-- What the code calls of a connection and its transaction. `commit` and `abandon` end the transaction;
-- a `commit` that fails drops it, which rolls back.
pub record Engine : Type 1 where
  pub Db : Type 0
  pub begin : Db → Result (Unit {0}) × Db
  pub execute_batch : Str → Db → Result (Unit {0}) × Db
  pub execute_values : Str → List Value → Db → Result ℕ × Db
  pub commit : Db → Result (Unit {0}) × Db
  pub abandon : Db → Db

pub record BatchStatement : Type 0 where
  pub sql : Str
  pub parameters : List Value

-- `R` is the channel on which the submitter waits.
pub record GroupableWrite (R : Type 0) : Type 0 where
  pub statements : List BatchStatement
  pub response : R

pub record GroupCommitCompletion (R : Type 0) : Type 0 where
  pub committed : Bool
  pub responses : List (R × Result (List ℕ))

abbrev pub savepoint : Str
savepoint = str "SAVEPOINT csgdb_group_commit_job"

abbrev pub release : Str
release = str "RELEASE csgdb_group_commit_job"

abbrev pub rollback : Str
rollback = str "ROLLBACK TO csgdb_group_commit_job; RELEASE csgdb_group_commit_job"

module _ (e : Engine) where
  open e use {Db, begin, execute_batch, execute_values, commit, abandon}

  abbrev add_change : ℕ → Result (List ℕ) × Db → Result (List ℕ) × Db
  add_change n (ok changes, db) = (ok (n ∷ changes), db)
  add_change n (err x, db) = (err x, db)

  abbrev and_then : Result ℕ × Db → (Db → Result (List ℕ) × Db) → Result (List ℕ) × Db
  and_then (ok n, db) rest = add_change n (rest db)
  and_then (err x, db) rest = (err x, db)

  -- The loop of `execute_group_job`.
  run_statements : List BatchStatement → Db → Result (List ℕ) × Db
  run_statements [] db = (ok [], db)
  run_statements (s ∷ ss) db = and_then (execute_values s.sql s.parameters db) (run_statements ss)

  abbrev answer_after : Result (List ℕ) → Result (Unit {0}) × Db → Result (Result (List ℕ)) × Db
  answer_after answer (ok _, db) = (ok answer, db)
  answer_after answer (err x, db) = (err x, db)

  end_job : Result (List ℕ) × Db → Result (Result (List ℕ)) × Db
  end_job (ok changes, db) = answer_after (ok changes) (execute_batch release db)
  end_job (err x, db) = answer_after (err x) (execute_batch rollback db)

  start_job : List BatchStatement → Result (Unit {0}) × Db → Result (Result (List ℕ)) × Db
  unfolding run_statements end_job
  start_job statements (ok _, db) = end_job (run_statements statements db)
  start_job statements (err x, db) = (err x, db)

  -- An error outside is fatal for the group, one inside is the job's own.
  pub execute_group_job : List BatchStatement → Db → Result (Result (List ℕ)) × Db
  unfolding start_job
  execute_group_job statements db = start_job statements (execute_batch savepoint db)

module _ {R : Type 0} where
  -- The answer of every job, if one error is fatal for the group.
  pub all_failed : ErrorCode → List (R × Result (List ℕ)) → List (R × Result (List ℕ))
  all_failed x [] = []
  all_failed x ((channel, _) ∷ rest) = (channel, err x) ∷ all_failed x rest

  -- The answers when the commit fails: a job that had failed by itself keeps its own error.
  pub commit_failed : ErrorCode → List (R × Result (List ℕ)) → List (R × Result (List ℕ))
  commit_failed x [] = []
  commit_failed x ((channel, ok _) ∷ rest) = (channel, err x) ∷ commit_failed x rest
  commit_failed x ((channel, err y) ∷ rest) = (channel, err y) ∷ commit_failed x rest

  pub any_ok : List (R × Result (List ℕ)) → Bool
  any_ok [] = false
  any_ok ((channel, r) ∷ rest) = is_ok r || any_ok rest

  -- The answers to jobs that never started.
  pub refused : ErrorCode → List (GroupableWrite R) → List (R × Result (List ℕ))
  refused x [] = []
  refused x (job ∷ jobs) = (job.response, err x) ∷ refused x jobs

-- The counters that `execute_group_commit` moves.
pub count_group : ℕ → PoolMetrics → PoolMetrics
count_group jobs m = record m {
  group_commit_transactions = fetch_add m.group_commit_transactions 1;
  largest_group_commit = max m.largest_group_commit jobs;
  grouped_write_jobs =
      if ltb 1 jobs then fetch_add m.grouped_write_jobs jobs else m.grouped_write_jobs;
  write_jobs_completed = fetch_add m.write_jobs_completed jobs;
}

-- The responses, the fatal error if there was one, and the connection.
abbrev Run : Engine → Type 0 → Type 0
Run e R = List (R × Result (List ℕ)) × Option ErrorCode × e.Db

module _ (e : Engine) {R : Type 0} where
  open e use {Db, begin, commit, abandon}

  abbrev respond : R → Result (List ℕ) → Run e R → Run e R
  respond channel r (responses, fatal, db) = ((channel, r) ∷ responses, fatal, db)

  abbrev go_on : R → Result (Result (List ℕ)) × Db → (Option ErrorCode → Db → Run e R) → Run e R
  go_on channel (ok r, db) rest = respond channel r (rest none db)
  go_on channel (err x, db) rest = respond channel (err x) (rest (some x) db)

  -- The loop over the jobs. After a fatal error no other job is run.
  pub run_jobs : List (GroupableWrite R) → Option ErrorCode → Db → Run e R
  run_jobs [] fatal db = ([], fatal, db)
  run_jobs (job ∷ jobs) (some x) db = respond job.response (err x) (run_jobs jobs (some x) db)
  run_jobs (job ∷ jobs) none db =
      go_on job.response (execute_group_job e job.statements db) (run_jobs jobs)

  abbrev committed_as :
      List (R × Result (List ℕ)) → Result (Unit {0}) × Db → GroupCommitCompletion R × Db
  committed_as responses (ok _, db) =
      (record { committed = any_ok responses; responses = responses }, db)
  committed_as responses (err x, db) =
      (record { committed = false; responses = commit_failed x responses }, db)

  end_group : Run e R → GroupCommitCompletion R × Db
  end_group (responses, some x, db) =
      (record { committed = false; responses = all_failed x responses }, abandon db)
  end_group (responses, none, db) = committed_as responses (commit db)

  start_group : List (GroupableWrite R) → Result (Unit {0}) × Db → GroupCommitCompletion R × Db
  unfolding run_jobs end_group refused
  start_group jobs (ok _, db) = end_group (run_jobs jobs none db)
  start_group jobs (err x, db) = (record { committed = false; responses = refused x jobs }, db)

  pub execute_group_commit :
      List (GroupableWrite R) → PoolMetrics → Db → GroupCommitCompletion R × PoolMetrics × Db
  unfolding start_group count_group
  execute_group_commit jobs m db =
      let (completion, db') = start_group jobs (begin db) in
      (completion, count_group (length jobs) m, db')
