-- ===== src/Pool/Group/Answers.antt =====
-- The answers of a group commit, and what they say of the database.
use csgdb.Prelude.{ℕ, ◌≡◌, refl, false, List, [], ◌∷◌, All}
use csgdb.Core.Error.{ErrorCode, Result, ok, err}
use csgdb.Pool.Group.{
  Engine, BatchStatement, GroupableWrite, all_failed, commit_failed, any_ok, refused,
}
use csgdb.Pool.Group.Laws.{View}
use csgdb.Pool.Group.Job.{Statements}

module _ {R : Type 0} where
  -- One answer for each job, on its own channel and in order.
  abbrev pub Channels : List (GroupableWrite R) → List (R × Result (List ℕ)) → Type 0
  Channels [] [] = Unit {0}
  Channels [] (a ∷ rest) = ⊥
  Channels (job ∷ jobs) [] = ⊥
  Channels (job ∷ jobs) ((channel, r) ∷ rest) = (channel ≡ job.response) × Channels jobs rest

module _ (e : Engine) (v : View e) {R : Type 0} where
  open e use {Db, begin, commit, abandon}
  open v use {Rows, rows, base, Plain}

  -- The jobs whose answer is a success, and no others, take the first rows to the second, in order.
  abbrev pub Applied : List (GroupableWrite R) → List (R × Result (List ℕ)) → Rows → Rows → Type 0
  Applied [] [] r r' = r' ≡ r
  Applied [] (a ∷ rest) r r' = ⊥
  Applied (job ∷ jobs) [] r r' = ⊥
  Applied (job ∷ jobs) ((channel, ok ns) ∷ rest) r r' =
      (channel ≡ job.response)
      × (between : Rows) × Statements e v job.statements r ns between
      × Applied jobs rest between r'
  Applied (job ∷ jobs) ((channel, err x) ∷ rest) r r' =
      (channel ≡ job.response) × Applied jobs rest r r'

  abbrev pub AllPlain : List (GroupableWrite R) → Type 0
  AllPlain =
      All (λ (job : GroupableWrite R). All (λ (s : BatchStatement). Plain s.sql) job.statements)

  pub Channels-Applied :
      (jobs : List (GroupableWrite R)) (answers : List (R × Result (List ℕ))) (r r' : Rows)
      → Applied jobs answers r r'
      → Channels jobs answers
  Channels-Applied [] [] r r' h = tt
  Channels-Applied [] (a ∷ rest) r r' h = h
  Channels-Applied (job ∷ jobs) [] r r' h = h
  Channels-Applied (job ∷ jobs) ((channel, ok ns) ∷ rest) r r' h =
      (h.0, Channels-Applied jobs rest h.1 r' h.3)
  Channels-Applied (job ∷ jobs) ((channel, err x) ∷ rest) r r' h =
      (h.0, Channels-Applied jobs rest r r' h.1)

  pub Applied-all_failed :
      (x : ErrorCode) (jobs : List (GroupableWrite R)) (answers : List (R × Result (List ℕ)))
      (r : Rows)
      → Channels jobs answers
      → Applied jobs (all_failed x answers) r r × (any_ok (all_failed x answers) ≡ false)
  unfolding all_failed any_ok
  Applied-all_failed x [] [] r h = (refl, refl)
  Applied-all_failed x [] (a ∷ rest) r h = absurd h
  Applied-all_failed x (job ∷ jobs) [] r h = absurd h
  Applied-all_failed x (job ∷ jobs) ((channel, a) ∷ rest) r h =
      let ih = Applied-all_failed x jobs rest r h.1 in ((h.0, ih.0), ih.1)

  pub Applied-commit_failed :
      (x : ErrorCode) (jobs : List (GroupableWrite R)) (answers : List (R × Result (List ℕ)))
      (r : Rows)
      → Channels jobs answers
      → Applied jobs (commit_failed x answers) r r × (any_ok (commit_failed x answers) ≡ false)
  unfolding commit_failed any_ok
  Applied-commit_failed x [] [] r h = (refl, refl)
  Applied-commit_failed x [] (a ∷ rest) r h = absurd h
  Applied-commit_failed x (job ∷ jobs) [] r h = absurd h
  Applied-commit_failed x (job ∷ jobs) ((channel, ok ns) ∷ rest) r h =
      let ih = Applied-commit_failed x jobs rest r h.1 in ((h.0, ih.0), ih.1)
  Applied-commit_failed x (job ∷ jobs) ((channel, err y) ∷ rest) r h =
      let ih = Applied-commit_failed x jobs rest r h.1 in ((h.0, ih.0), ih.1)

  pub Applied-refused :
      (x : ErrorCode) (jobs : List (GroupableWrite R)) (r : Rows)
      → Applied jobs (refused x jobs) r r × (any_ok (refused x jobs) ≡ false)
  unfolding refused any_ok
  Applied-refused x [] r = (refl, refl)
  Applied-refused x (job ∷ jobs) r = let ih = Applied-refused x jobs r in ((refl, ih.0), ih.1)
