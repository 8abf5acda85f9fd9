-- ===== src/Pool/Group/Job.antt =====
-- crates/csgdb/src/pool.rs, `execute_group_job`: how one job of a group commit may end.
use csgdb.Prelude.{ℕ, ◌≡◌, refl, sym, subst, ◌∙◌, ◌⊎◌, inl, inr, List, [], ◌∷◌, arith, All}
use csgdb.Core.Error.{ErrorCode, Result, ok, err}
use csgdb.Pool.Group.{
  Engine, BatchStatement, savepoint, release, rollback, run_statements, and_then, add_change,
  start_job, end_job, answer_after, execute_group_job,
}
use csgdb.Pool.Group.Laws.{View, EngineLaws}

module _ (e : Engine) (v : View e) where
  open e use {Db, begin, execute_batch, execute_values, commit, abandon}
  open v use {Rows, rows, base, marks, Does, Plain}

  -- The statements, one after another, may take the first rows to the second with these changes.
  abbrev pub Statements : List BatchStatement → Rows → List ℕ → Rows → Type 0
  Statements [] r [] r' = r' ≡ r
  Statements [] r (n ∷ ns) r' = ⊥
  Statements (s ∷ ss) r [] r' = ⊥
  Statements (s ∷ ss) r (n ∷ ns) r' =
      (between : Rows) × Does s.sql s.parameters r n between × Statements ss between ns r'

  module _ (laws : EngineLaws e v) where
    -- How the statements of a job may end.
    abbrev StatementsEnd : List BatchStatement → Db → Result (List ℕ) × Db → Type 0
    StatementsEnd ss db (ok ns, db') =
        Statements ss (rows db) ns (rows db') × (base db' ≡ base db) × (marks db' ≡ marks db)
    StatementsEnd ss db (err x, db') =
        (base db' ≡ base db) × ((marks db' ≡ marks db) ⊎ (marks db' ≡ []))

    add_change_end :
        (s : BatchStatement) (ss : List BatchStatement) (n : ℕ) (db db' : Db)
        (r : Result (List ℕ) × Db)
        → Does s.sql s.parameters (rows db) n (rows db')
          × (base db' ≡ base db)
          × (marks db' ≡ marks db)
        → StatementsEnd ss db' r
        → StatementsEnd (s ∷ ss) db (add_change e n r)
    add_change_end s ss n db db' (ok ns, db'') h k = ((rows db', h.0, k.0), k.1 ∙ h.1, k.2 ∙ h.2)
    add_change_end s ss n db db' (err x, db'') h k =
        (k.0 ∙ h.1, elim k.1 [ inl same ↦ inl (same ∙ h.2) | inr gone ↦ inr gone ])

    and_then_end :
        (s : BatchStatement) (ss : List BatchStatement) (db : Db) (r : Result ℕ × Db)
        (rest : Db → Result (List ℕ) × Db)
        → Plain s.sql
        → execute_values s.sql s.parameters db ≡ r
        → ((db' : Db) → StatementsEnd ss db' (rest db'))
        → StatementsEnd (s ∷ ss) db (and_then e r rest)
    and_then_end s ss db (ok n, db') rest p h k =
        add_change_end s ss n db db' (rest db') (laws.values_ok s.sql s.parameters n db db' p h)
          (k db')
    and_then_end s ss db (err x, db') rest p h k = laws.values_err s.sql s.parameters x db db' p h

    run_statements_end :
        (ss : List BatchStatement) (db : Db)
        → All (λ (s : BatchStatement). Plain s.sql) ss
        → StatementsEnd ss db (run_statements e ss db)
    unfolding run_statements
    run_statements_end [] db p = (refl, refl, refl)
    run_statements_end (s ∷ ss) db p =
        and_then_end s ss db _ (run_statements e ss) p.0 refl (λ db'. run_statements_end ss db' p.1)

    -- How a job ends: it took effect, or it left no trace, or the transaction must be given up.
    abbrev pub JobEnd : List BatchStatement → Db → Result (Result (List ℕ)) × Db → Type 0
    JobEnd ss db (ok (ok ns), db') = Statements ss (rows db) ns (rows db') × (base db' ≡ base db)
    JobEnd ss db (ok (err x), db') = (rows db' ≡ rows db) × (base db' ≡ base db)
    JobEnd ss db (err x, db') = base db' ≡ base db

    released :
        (ss : List BatchStatement) (ns : List ℕ) (db db₁ : Db) (r : Result (Unit {0}) × Db)
        → execute_batch release db₁ ≡ r
        → Statements ss (rows db) ns (rows db₁)
        → base db₁ ≡ base db
        → JobEnd ss db (answer_after e (ok ns) r)
    released ss ns db db₁ (ok _, db') h st b =
        let law = laws.release_ok db₁ db' h in
        (subst (Statements ss (rows db) ns) (sym law.2) st, law.3 ∙ b)
    released ss ns db db₁ (err x, db') h st b = laws.release_err x db₁ db' h ∙ b

    rolled_back :
        (ss : List BatchStatement) (y : ErrorCode) (db db₁ : Db) (ms : List Rows)
        (r : Result (Unit {0}) × Db)
        → execute_batch rollback db₁ ≡ r
        → (marks db₁ ≡ rows db ∷ ms) ⊎ (marks db₁ ≡ [])
        → base db₁ ≡ base db
        → JobEnd ss db (answer_after e (err y) r)
    rolled_back ss y db db₁ ms (ok _, db') h m b =
        let law = laws.rollback_ok db₁ db' h in (ground (arith, m, law.0), law.1 ∙ b)
    rolled_back ss y db db₁ ms (err x, db') h m b = laws.rollback_err x db₁ db' h ∙ b

    end_job_end :
        (ss : List BatchStatement) (db db₀ : Db) (r : Result (List ℕ) × Db)
        → (rows db₀ ≡ rows db) × (base db₀ ≡ base db) × (marks db₀ ≡ rows db ∷ marks db)
        → StatementsEnd ss db₀ r
        → JobEnd ss db (end_job e r)
    unfolding end_job
    end_job_end ss db db₀ (ok ns, db₁) s h =
        released ss ns db db₁ _ refl (subst (λ r. Statements ss r ns (rows db₁)) s.0 h.0)
          (h.1 ∙ s.1)
    end_job_end ss db db₀ (err y, db₁) s h =
        rolled_back ss y db db₁ (marks db) _ refl
          (elim h.1 [ inl same ↦ inl (same ∙ s.2) | inr gone ↦ inr gone ]) (h.0 ∙ s.1)

    start_job_end :
        (ss : List BatchStatement) (db : Db) (r : Result (Unit {0}) × Db)
        → All (λ (s : BatchStatement). Plain s.sql) ss
        → execute_batch savepoint db ≡ r
        → JobEnd ss db (start_job e ss r)
    unfolding start_job
    start_job_end ss db (ok _, db₀) p h =
        end_job_end ss db db₀ _ (laws.savepoint_ok db db₀ h) (run_statements_end ss db₀ p)
    start_job_end ss db (err x, db₀) p h = laws.savepoint_err x db db₀ h

    pub execute_group_job_end :
        (ss : List BatchStatement) (db : Db)
        → All (λ (s : BatchStatement). Plain s.sql) ss
        → JobEnd ss db (execute_group_job e ss db)
    unfolding execute_group_job
    execute_group_job_end ss db p = start_job_end ss db _ p refl
