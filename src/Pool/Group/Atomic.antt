-- ===== src/Pool/Group/Atomic.antt =====
-- crates/csgdb/src/pool.rs, `execute_group_commit`: the rows that a group commit leaves.
use csgdb.Prelude.{ℕ, ◌≡◌, refl, sym, subst, ◌∙◌, List, some, none}
use csgdb.Core.Error.{Result, ok, err}
use csgdb.Pool.Runtime.{PoolMetrics}
use csgdb.Pool.Group.{
  Engine, GroupableWrite, GroupCommitCompletion, Run, any_ok, end_group, committed_as, start_group,
  execute_group_commit,
}
use csgdb.Pool.Group.Laws.{View, EngineLaws}
use csgdb.Pool.Group.Answers.{
  Applied, AllPlain, Channels-Applied, Applied-all_failed, Applied-commit_failed, Applied-refused,
}
use csgdb.Pool.Group.Loop.{RunEnd, run_jobs_end}

module _ (e : Engine) (v : View e) (laws : EngineLaws e v) {R : Type 0} where
  open e use {Db, begin, commit, abandon}
  open v use {Rows, rows, base}

  abbrev GroupEnd : List (GroupableWrite R) → Db → GroupCommitCompletion R × Db → Type 0
  GroupEnd jobs db (c, db') =
      Applied e v jobs c.responses (rows db) (rows db') × (c.committed ≡ any_ok c.responses)

  committed_end :
      (jobs : List (GroupableWrite R)) (answers : List (R × Result (List ℕ))) (db db₁ : Db)
      (r : Result (Unit {0}) × Db)
      → commit db₁ ≡ r
      → Applied e v jobs answers (rows db) (rows db₁)
      → base db₁ ≡ rows db
      → GroupEnd jobs db (committed_as e answers r)
  committed_end jobs answers db db₁ (ok _, db') h a b =
      (subst (Applied e v jobs answers (rows db)) (sym (laws.commit_ok db₁ db' h)) a, refl)
  committed_end jobs answers db db₁ (err x, db') h a b =
      let failed =
        Applied-commit_failed e v x jobs answers (rows db)
          (Channels-Applied e v jobs answers _ _ a) in
      (
        subst (Applied e v jobs _ (rows db)) (sym (laws.commit_err x db₁ db' h ∙ b)) failed.0,
        sym failed.1,
      )

  end_group_end :
      (jobs : List (GroupableWrite R)) (db db₀ : Db) (run : Run e R)
      → (rows db₀ ≡ rows db) × (base db₀ ≡ rows db)
      → RunEnd e v laws jobs db₀ run
      → GroupEnd jobs db (end_group e run)
  unfolding end_group
  end_group_end jobs db db₀ (answers, none, db₁) s h =
      committed_end jobs answers db db₁ _ refl
        (subst (λ r. Applied e v jobs answers r (rows db₁)) s.0 h.0) (h.1 ∙ s.1)
  end_group_end jobs db db₀ (answers, some x, db₁) s h =
      let failed = Applied-all_failed e v x jobs answers (rows db) h.0 in
      (
        subst (Applied e v jobs _ (rows db)) (sym (laws.abandoned db₁ ∙ h.1 ∙ s.1)) failed.0,
        sym failed.1,
      )

  start_group_end :
      (jobs : List (GroupableWrite R)) (db : Db) (r : Result (Unit {0}) × Db)
      → AllPlain e v jobs
      → begin db ≡ r
      → GroupEnd jobs db (start_group e jobs r)
  unfolding start_group
  start_group_end jobs db (ok _, db₀) p h =
      end_group_end jobs db db₀ _ (laws.begin_ok db db₀ h) (run_jobs_end e v laws jobs db₀ p)
  start_group_end jobs db (err x, db₀) p h =
      let failed = Applied-refused e v x jobs (rows db) in
      (
        subst (Applied e v jobs _ (rows db)) (sym (laws.begin_err x db db₀ h)) failed.0,
        sym failed.1,
      )

  -- Whatever fails on the way (the begin, a savepoint, a statement, a release, a rollback or the
  -- commit): every job is answered once, on its own channel and in order; the rows after the group
  -- commit come from those before it by running, in order, exactly the jobs that were answered with
  -- a success, each whole and with the changes that its answer reports; and the group reports a
  -- commit exactly when some job succeeded. This rests on the engine's laws, and on jobs without
  -- transaction control.
  pub execute_group_commit-Applied :
      (jobs : List (GroupableWrite R)) (m : PoolMetrics) (db : Db)
      → AllPlain e v jobs
      → let (c, m', db') = execute_group_commit e jobs m db in
        Applied e v jobs c.responses (rows db) (rows db') × (c.committed ≡ any_ok c.responses)
  unfolding execute_group_commit
  execute_group_commit-Applied jobs m db p = start_group_end jobs db _ p refl
