-- ===== src/Pool/Group/Channels.antt =====
-- crates/csgdb/src/pool.rs, `execute_group_commit`: one answer for each job, on its own channel and in
-- order, whatever the engine does.
use csgdb.Prelude.{
  ℕ, fetch_add, length-map, sym, ◌≡◌, refl, ap, ◌∙◌, List, [], ◌∷◌, map, Option, some, none, length,
}
use csgdb.Core.Error.{ErrorCode, Result, ok, err}
use csgdb.Pool.Runtime.{PoolMetrics}
use csgdb.Pool.Group.{
  Engine, GroupableWrite, Run, run_jobs, go_on, end_group, start_group, all_failed, commit_failed,
  committed_as, count_group, refused, execute_group_commit, execute_group_job,
}

module _ {R : Type 0} where
  abbrev pub channels : List (R × Result (List ℕ)) → List R
  channels = map (λ a. a.0)

  abbrev pub submitters : List (GroupableWrite R) → List R
  submitters = map (λ job. job.response)

  channels-all_failed :
      (x : ErrorCode) (answers : List (R × Result (List ℕ)))
      → channels (all_failed x answers) ≡ channels answers
  unfolding all_failed
  channels-all_failed x [] = refl
  channels-all_failed x ((channel, r) ∷ rest) = ap (◌∷◌ channel) (channels-all_failed x rest)

  channels-commit_failed :
      (x : ErrorCode) (answers : List (R × Result (List ℕ)))
      → channels (commit_failed x answers) ≡ channels answers
  unfolding commit_failed
  channels-commit_failed x [] = refl
  channels-commit_failed x ((channel, ok ns) ∷ rest) =
      ap (◌∷◌ channel) (channels-commit_failed x rest)
  channels-commit_failed x ((channel, err y) ∷ rest) =
      ap (◌∷◌ channel) (channels-commit_failed x rest)

  channels-refused :
      (x : ErrorCode) (jobs : List (GroupableWrite R)) → channels (refused x jobs) ≡ submitters jobs
  unfolding refused
  channels-refused x [] = refl
  channels-refused x (job ∷ jobs) = ap (◌∷◌ job.response) (channels-refused x jobs)

module _ (e : Engine) {R : Type 0} where
  open e use {Db, begin, commit}

  channels-go_on :
      (channel : R) (r : Result (Result (List ℕ)) × Db) (rest : Option ErrorCode → Db → Run e R)
      (later : List R)
      → ((fatal : Option ErrorCode) (db : Db) → channels (rest fatal db).0 ≡ later)
      → channels (go_on e channel r rest).0 ≡ channel ∷ later
  channels-go_on channel (ok r, db) rest later h = ap (◌∷◌ channel) (h none db)
  channels-go_on channel (err x, db) rest later h = ap (◌∷◌ channel) (h (some x) db)

  channels-run_jobs :
      (jobs : List (GroupableWrite R)) (fatal : Option ErrorCode) (db : Db)
      → channels (run_jobs e jobs fatal db).0 ≡ submitters jobs
  unfolding run_jobs
  channels-run_jobs [] fatal db = refl
  channels-run_jobs (job ∷ jobs) (some x) db =
      ap (◌∷◌ job.response) (channels-run_jobs jobs (some x) db)
  channels-run_jobs (job ∷ jobs) none db =
      channels-go_on job.response (execute_group_job e job.statements db) (run_jobs e jobs)
        (submitters jobs) (channels-run_jobs jobs)

  channels-committed_as :
      (answers : List (R × Result (List ℕ))) (r : Result (Unit {0}) × Db)
      → channels (committed_as e answers r).0.responses ≡ channels answers
  channels-committed_as answers (ok _, db) = refl
  channels-committed_as answers (err x, db) = channels-commit_failed x answers

  channels-end_group : (run : Run e R) → channels (end_group e run).0.responses ≡ channels run.0
  unfolding end_group
  channels-end_group (answers, some x, db) = channels-all_failed x answers
  channels-end_group (answers, none, db) = channels-committed_as answers (commit db)

  channels-start_group :
      (jobs : List (GroupableWrite R)) (r : Result (Unit {0}) × Db)
      → channels (start_group e jobs r).0.responses ≡ submitters jobs
  unfolding start_group
  channels-start_group jobs (ok _, db) =
      channels-end_group (run_jobs e jobs none db) ∙ channels-run_jobs jobs none db
  channels-start_group jobs (err x, db) = channels-refused x jobs

  pub channels-execute_group_commit :
      (jobs : List (GroupableWrite R)) (m : PoolMetrics) (db : Db)
      → channels (execute_group_commit e jobs m db).0.responses ≡ submitters jobs
  unfolding execute_group_commit
  channels-execute_group_commit jobs m db = channels-start_group jobs (begin db)

  pub execute_group_commit-completed :
      (jobs : List (GroupableWrite R)) (m : PoolMetrics) (db : Db)
      → ((execute_group_commit e jobs m db).1.write_jobs_completed
          ≡ fetch_add m.write_jobs_completed (length jobs))
        × (length (execute_group_commit e jobs m db).0.responses ≡ length jobs)
  unfolding execute_group_commit count_group
  execute_group_commit-completed jobs m db =
      let answers = (start_group e jobs (begin db)).0.responses in
      let one = length-map answers (λ a. a.0) in
      let other = length-map jobs (λ job. job.response) in
      (refl, sym one ∙ (ap length (channels-start_group jobs (begin db)) ∙ other))

  -- A group runs no checkpoint.
  pub execute_group_commit-checkpoints :
      (jobs : List (GroupableWrite R)) (m : PoolMetrics) (db : Db)
      → let m' = (execute_group_commit e jobs m db).1 in
        (m'.checkpoint_runs ≡ m.checkpoint_runs)
        × (m'.maintenance_failures ≡ m.maintenance_failures)
  unfolding execute_group_commit count_group
  execute_group_commit-checkpoints jobs m db = (refl, refl)
