-- ===== src/Pool/Group/Examples.antt =====
-- A small engine that meets the laws, and a run of a group commit over it: its rows are numbers, a
-- statement adds a row if it has a parameter and fails otherwise, and commits may be made to fail.
use csgdb.Prelude.{
  ℕ, ◌≡◌, refl, ◌⊎◌, inl, Bool, true, false, List, [], ◌∷◌, Str, str, str_eq, arith, if◌then◌else◌,
}
use csgdb.Core.Error.{ErrorCode, Result, ok, err, database_busy, constraint_violation, storage}
use csgdb.Prelude.Int.{pos}
use csgdb.Core.Value.{Value}
use csgdb.Pool.Runtime.{PoolMetrics}
use csgdb.Pool.Group.{
  Engine, BatchStatement, GroupableWrite, savepoint, release, rollback, execute_group_commit,
  any_ok, commit_failed, execute_group_job,
}
use csgdb.Pool.Group.Laws.{View, EngineLaws}
use csgdb.Pool.Group.Answers.{Applied}
use csgdb.Pool.Group.Atomic.{execute_group_commit-Applied}

record Table : Type 0 where
  rows : List ℕ
  base : List ℕ
  marks : List (List ℕ)
  commits : Bool

abbrev without_mark : List (List ℕ) → Table → Result (Unit {0}) × Table
without_mark [] t = (err storage, t)
without_mark (m ∷ ms) t = (ok tt, record t { marks = ms })

abbrev back_to_mark : List (List ℕ) → Table → Result (Unit {0}) × Table
back_to_mark [] t = (err storage, t)
back_to_mark (m ∷ ms) t = (ok tt, record t { rows = m; marks = ms })

abbrev run_batch : Str → Table → Result (Unit {0}) × Table
run_batch sql t =
    if str_eq sql savepoint
    then (ok tt, record t { marks = t.rows ∷ t.marks })
    else if str_eq sql release
    then without_mark t.marks t
    else if str_eq sql rollback
    then back_to_mark t.marks t
    else (err storage, t)

abbrev run_values : Str → List Value → Table → Result ℕ × Table
run_values sql [] t = (err constraint_violation, t)
run_values sql (p ∷ ps) t = (ok 1, record t { rows = 7 ∷ t.rows })

abbrev finish : Bool → Table → Result (Unit {0}) × Table
finish true t = (ok tt, t)
finish false t = (err database_busy, record t { rows = t.base })

abbrev small : Engine
small = record {
  Db = Table;
  begin = λ t. (ok tt, record t { base = t.rows; marks = [] });
  execute_batch = run_batch;
  execute_values = run_values;
  commit = λ t. finish t.commits t;
  abandon = λ t. record t { rows = t.base };
}

abbrev seen : View small
seen = record {
  Rows = List ℕ;
  rows = λ t. t.rows;
  base = λ t. t.base;
  marks = λ t. t.marks;
  Does = λ sql ps r n r'. (n ≡ 1) × (r' ≡ 7 ∷ r);
  Plain = λ sql. Unit {0};
}

without_mark_ok :
    (ms : List (List ℕ)) (t t' : Table)
    → without_mark ms t ≡ (ok tt, t')
    → (m : List ℕ) × (ms ≡ m ∷ t'.marks) × (t'.rows ≡ t.rows) × (t'.base ≡ t.base)
without_mark_ok [] t t' h = cc
without_mark_ok (m ∷ ms) t t' h = (m, ground (arith, h), ground (arith, h), ground (arith, h))

without_mark_err :
    (ms : List (List ℕ)) (x : ErrorCode) (t t' : Table)
    → without_mark ms t ≡ (err x, t')
    → t'.base ≡ t.base
without_mark_err [] x t t' h = ground (arith, h)
without_mark_err (m ∷ ms) x t t' h = ground (arith, h)

back_to_mark_ok :
    (ms : List (List ℕ)) (t t' : Table)
    → back_to_mark ms t ≡ (ok tt, t')
    → (ms ≡ t'.rows ∷ t'.marks) × (t'.base ≡ t.base)
back_to_mark_ok [] t t' h = cc
back_to_mark_ok (m ∷ ms) t t' h = ground (arith, h)

back_to_mark_err :
    (ms : List (List ℕ)) (x : ErrorCode) (t t' : Table)
    → back_to_mark ms t ≡ (err x, t')
    → t'.base ≡ t.base
back_to_mark_err [] x t t' h = ground (arith, h)
back_to_mark_err (m ∷ ms) x t t' h = ground (arith, h)

run_values_ok :
    (sql : Str) (ps : List Value) (n : ℕ) (t t' : Table)
    → run_values sql ps t ≡ (ok n, t')
    → ((n ≡ 1) × (t'.rows ≡ 7 ∷ t.rows)) × (t'.base ≡ t.base) × (t'.marks ≡ t.marks)
run_values_ok sql [] n t t' h = cc
run_values_ok sql (p ∷ ps) n t t' h = ground (arith, h)

run_values_err :
    (sql : Str) (ps : List Value) (x : ErrorCode) (t t' : Table)
    → run_values sql ps t ≡ (err x, t')
    → (t'.base ≡ t.base) × ((t'.marks ≡ t.marks) ⊎ (t'.marks ≡ []))
run_values_err sql [] x t t' h = (ground (arith, h), inl (ground (arith, h)))
run_values_err sql (p ∷ ps) x t t' h = cc

finish_ok : (b : Bool) (t t' : Table) → finish b t ≡ (ok tt, t') → t'.rows ≡ t.rows
finish_ok true t t' h = ground (arith, h)
finish_ok false t t' h = cc

finish_err : (b : Bool) (x : ErrorCode) (t t' : Table) → finish b t ≡ (err x, t') → t'.rows ≡ t.base
finish_err true x t t' h = cc
finish_err false x t t' h = ground (arith, h)

small_laws : EngineLaws small seen
unfolding str_eq
small_laws = record {
  begin_ok = λ t t' h. ground (arith, h);
  begin_err = λ x t t' h. cc;
  savepoint_ok = λ t t' h. ground (arith, h);
  savepoint_err = λ x t t' h. cc;
  values_ok = λ sql ps n t t' p h. run_values_ok sql ps n t t' h;
  values_err = λ sql ps x t t' p h. run_values_err sql ps x t t' h;
  release_ok = λ t t' h. without_mark_ok t.marks t t' h;
  release_err = λ x t t' h. without_mark_err t.marks x t t' h;
  rollback_ok = λ t t' h. back_to_mark_ok t.marks t t' h;
  rollback_err = λ x t t' h. back_to_mark_err t.marks x t t' h;
  commit_ok = λ t t' h. finish_ok t.commits t t' h;
  commit_err = λ x t t' h. finish_err t.commits x t t' h;
  abandoned = λ t. refl;
}

abbrev insert : List Value → BatchStatement
insert ps = record { sql = str "INSERT INTO t VALUES (?)"; parameters = ps }

abbrev job : ℕ → List BatchStatement → GroupableWrite ℕ
job channel statements = record { statements = statements; response = channel }

abbrev five : List Value
five = Value.integer (pos 5) ∷ []

-- The second job adds a row and then fails.
abbrev jobs : List (GroupableWrite ℕ)
jobs =
    job 1 (insert five ∷ [])
    ∷ job 2 (insert five ∷ insert [] ∷ [])
    ∷ job 3 (insert five ∷ insert five ∷ [])
    ∷ []

abbrev table : Bool → Table
table commits = record { rows = 3 ∷ []; base = []; marks = []; commits = commits }

abbrev metrics : PoolMetrics
metrics = record {
  writer_active = true;
  write_jobs_submitted = 3;
  write_jobs_completed = 0;
  write_jobs_rejected = 0;
  group_commit_transactions = 0;
  grouped_write_jobs = 0;
  largest_group_commit = 0;
  checkpoint_runs = 0;
  automatic_checkpoint_runs = 0;
  incomplete_checkpoints = 0;
  maintenance_failures = 0;
  wal_pressure_events = 0;
  wal_pressure_active = false;
  automatic_maintenance_enabled = false;
  last_observed_wal_frames = 0;
  last_remaining_wal_frames = 0;
}

answers : (execute_group_commit small jobs metrics (table true)).0 ≡ record {
  committed = true;
  responses = (1, ok (1 ∷ [])) ∷ (2, err constraint_violation) ∷ (3, ok (1 ∷ 1 ∷ [])) ∷ [];
}
unfolding execute_group_commit execute_group_job str_eq any_ok commit_failed
answers = refl

not_committed : (execute_group_commit small jobs metrics (table false)).0 ≡ record {
  committed = false;
  responses = (1, err database_busy) ∷ (2, err constraint_violation) ∷ (3, err database_busy) ∷ [];
}
unfolding execute_group_commit execute_group_job str_eq any_ok commit_failed
not_committed = refl

execute_group_commit-Applied_example :
    let (c, m', db') = execute_group_commit small jobs metrics (table true) in
    Applied small seen jobs c.responses (3 ∷ []) db'.rows × (c.committed ≡ any_ok c.responses)
execute_group_commit-Applied_example =
    execute_group_commit-Applied small seen small_laws jobs metrics (table true)
      ((tt, tt), ((tt, (tt, tt)), ((tt, (tt, tt)), tt)))
