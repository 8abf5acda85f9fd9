-- ===== src/Pool/Group/Loop.antt =====
-- The loop of a group commit over its jobs.
use csgdb.Prelude.{ℕ, ◌≡◌, refl, subst, ◌∙◌, List, [], ◌∷◌, some, none}
use csgdb.Core.Error.{ErrorCode, Result, ok, err}
use csgdb.Pool.Group.{Engine, GroupableWrite, Run, run_jobs, go_on, respond}
use csgdb.Pool.Group.Laws.{View, EngineLaws}
use csgdb.Pool.Group.Answers.{Channels, Applied, AllPlain}
use csgdb.Pool.Group.Job.{Statements, JobEnd, execute_group_job_end}

module _ (e : Engine) (v : View e) {R : Type 0} where
  open e use {Db}
  open v use {Rows, rows, base}

  module _ (laws : EngineLaws e v) where
    -- What the loop over the jobs leaves, at each of its ends.
    abbrev pub RunEnd : List (GroupableWrite R) → Db → Run e R → Type 0
    RunEnd jobs db (answers, none, db') =
        Applied e v jobs answers (rows db) (rows db') × (base db' ≡ base db)
    RunEnd jobs db (answers, some x, db') = Channels jobs answers × (base db' ≡ base db)

    abbrev FatalEnd : List (GroupableWrite R) → Db → Run e R → Type 0
    FatalEnd jobs db (answers, none, db') = ⊥
    FatalEnd jobs db (answers, some x, db') = Channels jobs answers × (base db' ≡ base db)

    respond_fatal :
        (job : GroupableWrite R) (jobs : List (GroupableWrite R)) (r : Result (List ℕ))
        (db db' : Db) (run : Run e R)
        → base db' ≡ base db
        → FatalEnd jobs db' run
        → FatalEnd (job ∷ jobs) db (respond e job.response r run)
    respond_fatal job jobs r db db' (answers, none, db'') b h = h
    respond_fatal job jobs r db db' (answers, some x, db'') b h = ((refl, h.0), h.1 ∙ b)

    run_jobs_fatal :
        (jobs : List (GroupableWrite R)) (x : ErrorCode) (db : Db)
        → FatalEnd jobs db (run_jobs e jobs (some x) db)
    unfolding run_jobs
    run_jobs_fatal [] x db = (tt, refl)
    run_jobs_fatal (job ∷ jobs) x db =
        respond_fatal job jobs (err x) db db (run_jobs e jobs (some x) db) refl
          (run_jobs_fatal jobs x db)

    RunEnd-FatalEnd :
        (jobs : List (GroupableWrite R)) (db : Db) (run : Run e R)
        → FatalEnd jobs db run
        → RunEnd jobs db run
    RunEnd-FatalEnd jobs db (answers, none, db') h = absurd h
    RunEnd-FatalEnd jobs db (answers, some x, db') h = h

    respond_ok :
        (job : GroupableWrite R) (jobs : List (GroupableWrite R)) (ns : List ℕ) (db db' : Db)
        (run : Run e R)
        → Statements e v job.statements (rows db) ns (rows db') × (base db' ≡ base db)
        → RunEnd jobs db' run
        → RunEnd (job ∷ jobs) db (respond e job.response (ok ns) run)
    respond_ok job jobs ns db db' (answers, none, db'') s h =
        ((refl, rows db', s.0, h.0), h.1 ∙ s.1)
    respond_ok job jobs ns db db' (answers, some x, db'') s h = ((refl, h.0), h.1 ∙ s.1)

    respond_err :
        (job : GroupableWrite R) (jobs : List (GroupableWrite R)) (y : ErrorCode) (db db' : Db)
        (run : Run e R)
        → (rows db' ≡ rows db) × (base db' ≡ base db)
        → RunEnd jobs db' run
        → RunEnd (job ∷ jobs) db (respond e job.response (err y) run)
    respond_err job jobs y db db' (answers, none, db'') s h =
        ((refl, subst (λ r. Applied e v jobs answers r (rows db'')) s.0 h.0), h.1 ∙ s.1)
    respond_err job jobs y db db' (answers, some x, db'') s h = ((refl, h.0), h.1 ∙ s.1)

    go_on_end :
        (job : GroupableWrite R) (jobs : List (GroupableWrite R)) (db : Db)
        (r : Result (Result (List ℕ)) × Db)
        → JobEnd e v laws job.statements db r
        → ((db' : Db) → RunEnd jobs db' (run_jobs e jobs none db'))
        → RunEnd (job ∷ jobs) db (go_on e job.response r (run_jobs e jobs))
    go_on_end job jobs db (ok (ok ns), db') j k = respond_ok job jobs ns db db' _ j (k db')
    go_on_end job jobs db (ok (err y), db') j k = respond_err job jobs y db db' _ j (k db')
    go_on_end job jobs db (err x, db') j k =
        RunEnd-FatalEnd (job ∷ jobs) db
          (respond e job.response (err x) (run_jobs e jobs (some x) db'))
          (respond_fatal job jobs (err x) db db' _ j (run_jobs_fatal jobs x db'))

    pub run_jobs_end :
        (jobs : List (GroupableWrite R)) (db : Db)
        → AllPlain e v jobs
        → RunEnd jobs db (run_jobs e jobs none db)
    unfolding run_jobs
    run_jobs_end [] db p = (refl, refl)
    run_jobs_end (job ∷ jobs) db p =
        go_on_end job jobs db _ (execute_group_job_end e v laws job.statements db p.0)
          (λ db'. run_jobs_end jobs db' p.1)
