-- ===== src/Pool/Group/Laws.antt =====
-- What the group commit relies on of the storage engine: the documented behaviour of transactions and
-- savepoints, for statements that are not themselves transaction control.
use csgdb.Prelude.{ℕ, ◌≡◌, ◌⊎◌, List, [], ◌∷◌, Str}
use csgdb.Core.Error.{ErrorCode, ok, err}
use csgdb.Core.Value.{Value}
use csgdb.Pool.Group.{Engine, savepoint, release, rollback}

-- Of a connection: the rows that it sees, those that it saw when its transaction began, and those at
-- each open savepoint, the newest first.
pub record View (e : Engine) : Type 1 where
  pub Rows : Type 0
  pub rows : e.Db → Rows
  pub base : e.Db → Rows
  pub marks : e.Db → List Rows
  -- A statement with its parameters may take the first rows to the second and report the changes.
  pub Does : Str → List Value → Rows → ℕ → Rows → Type 0
  -- The statement is not transaction control.
  pub Plain : Str → Type 0

module _ (e : Engine) (v : View e) where
  open e use {Db, begin, execute_batch, execute_values, commit, abandon}
  open v use {Rows, rows, base, marks, Does, Plain}

  pub record EngineLaws : Type 1 where
    pub begin_ok :
        (db db' : Db) → begin db ≡ (ok tt, db') → (rows db' ≡ rows db) × (base db' ≡ rows db)
    pub begin_err : (x : ErrorCode) (db db' : Db) → begin db ≡ (err x, db') → rows db' ≡ rows db
    pub savepoint_ok :
        (db db' : Db)
        → execute_batch savepoint db ≡ (ok tt, db')
        → (rows db' ≡ rows db) × (base db' ≡ base db) × (marks db' ≡ rows db ∷ marks db)
    pub savepoint_err :
        (x : ErrorCode) (db db' : Db)
        → execute_batch savepoint db ≡ (err x, db')
        → base db' ≡ base db
    pub values_ok :
        (sql : Str) (ps : List Value) (n : ℕ) (db db' : Db)
        → Plain sql
        → execute_values sql ps db ≡ (ok n, db')
        → Does sql ps (rows db) n (rows db') × (base db' ≡ base db) × (marks db' ≡ marks db)
    -- A failing statement may roll the whole transaction back, and its savepoints with it.
    pub values_err :
        (sql : Str) (ps : List Value) (x : ErrorCode) (db db' : Db)
        → Plain sql
        → execute_values sql ps db ≡ (err x, db')
        → (base db' ≡ base db) × ((marks db' ≡ marks db) ⊎ (marks db' ≡ []))
    -- Both need an open savepoint.
    pub release_ok :
        (db db' : Db)
        → execute_batch release db ≡ (ok tt, db')
        → (m : Rows) × (marks db ≡ m ∷ marks db') × (rows db' ≡ rows db) × (base db' ≡ base db)
    pub release_err :
        (x : ErrorCode) (db db' : Db) → execute_batch release db ≡ (err x, db') → base db' ≡ base db
    pub rollback_ok :
        (db db' : Db)
        → execute_batch rollback db ≡ (ok tt, db')
        → (marks db ≡ rows db' ∷ marks db') × (base db' ≡ base db)
    pub rollback_err :
        (x : ErrorCode) (db db' : Db)
        → execute_batch rollback db ≡ (err x, db')
        → base db' ≡ base db
    pub commit_ok : (db db' : Db) → commit db ≡ (ok tt, db') → rows db' ≡ rows db
    pub commit_err : (x : ErrorCode) (db db' : Db) → commit db ≡ (err x, db') → rows db' ≡ base db
    pub abandoned : (db : Db) → rows (abandon db) ≡ base db
