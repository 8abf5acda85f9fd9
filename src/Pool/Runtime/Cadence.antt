-- ===== src/Pool/Runtime/Cadence.antt =====
-- How often the writer checkpoints, as long as no checkpoint leaves too much of the WAL behind.
use csgdb.Prelude.{
  fetch_add_exact, ℕ, suc, ◌+◌, ◌*◌, ◌^◌, ◌≤◌, ◌<◌, ◌≡◌, refl, sym, subst, true, false, arith, ltb,
  Bool-cases, inl, inr, saturating_add_exact,
}
use csgdb.Core.Error.{Result, ok, err}
use csgdb.Core.Connection.{CheckpointMode, CheckpointResult, passive, remaining_frames}
use csgdb.Pool.Options.{WalMaintenanceOptions, max_maintenance_interval_commits}
use csgdb.Pool.Runtime.{
  PoolMetrics, WriterRuntime, or_zero, recorded, new, pressure_of, record_checkpoint, after_write,
}

-- The checkpoints tried, those that failed included.
abbrev pub attempts : PoolMetrics → ℕ
attempts m = m.checkpoint_runs + m.maintenance_failures

module _ {Db : Type 0} (checkpoint : CheckpointMode → Db → Result CheckpointResult × Db) where
  module _ (o : WalMaintenanceOptions) where
    -- No checkpoint leaves more frames behind than the soft limit.
    abbrev pub IsCalm : Type 0
    IsCalm =
        (db : Db) (result : CheckpointResult)
        → (checkpoint passive db).0 ≡ ok result
        → or_zero (remaining_frames result) ≤ o.wal_soft_limit_frames

    -- The state of the writer after `n` calls of `after_write` without pressure.
    pub record Cadence (n : ℕ) (r : WriterRuntime) (m : PoolMetrics) : Type 0 where
      pub policy : r.maintenance ≡ o
      pub calm : r.wal_pressure ≡ false
      pub spaced : attempts m * o.checkpoint_interval_commits + r.commits_since_maintenance ≡ n
      pub in_time : r.commits_since_maintenance < o.checkpoint_interval_commits
      pub few : attempts m ≤ n

    recorded-Cadence :
        (n : ℕ) (m : PoolMetrics) (answer : Result CheckpointResult × Db)
        → ((result : CheckpointResult)
            → answer.0 ≡ ok result
            → or_zero (remaining_frames result) ≤ o.wal_soft_limit_frames)
        → suc n < 2 ^ 64
        → 0 < o.checkpoint_interval_commits
        → attempts m * o.checkpoint_interval_commits + o.checkpoint_interval_commits ≡ suc n
        → attempts m ≤ n
        → let (r', m', db') = recorded checkpoint (new o) m answer in Cadence (suc n) r' m'
    unfolding new record_checkpoint pressure_of
    recorded-Cadence n m (ok result, db) c h k e f =
        let runs = fetch_add_exact m.checkpoint_runs 1 (omega arith) in
        record {
          policy = refl;
          calm = ground (arith, c result refl);
          spaced = rw runs (grind arith);
          in_time = k;
          few = rw runs (omega arith);
        }
    recorded-Cadence n m (err x, db) c h k e f =
        let failures = fetch_add_exact m.maintenance_failures 1 (omega arith) in
        record {
          policy = refl;
          calm = refl;
          spaced = rw failures (grind arith);
          in_time = k;
          few = rw failures (omega arith);
        }

    kept-Cadence :
        (n commits : ℕ) (m : PoolMetrics) (db : Db)
        → o.enabled ≡ true
        → o.checkpoint_interval_commits ≤ max_maintenance_interval_commits
        → IsCalm
        → suc n < 2 ^ 64
        → Cadence n
            (record { maintenance = o; commits_since_maintenance = commits; wal_pressure = false })
            m
        → let (r', m', db') =
            after_write checkpoint
              (record {
                maintenance = o;
                commits_since_maintenance = commits;
                wal_pressure = false;
              })
              m
              db in
          Cadence (suc n) r' m'
    unfolding after_write new
    kept-Cadence n commits m db on small c h v =
        elim (Bool-cases (ltb (commits + 1) o.checkpoint_interval_commits)) [
          | inl early ↦
              simp (on, saturating_add_exact commits 1 (omega arith), early)
                (record {
                  policy = refl;
                  calm = refl;
                  spaced = omega (arith, v.spaced);
                  in_time = ground arith;
                  few = omega (arith, v.few);
                })
          | inr due ↦
              simp (on, saturating_add_exact commits 1 (omega arith), due)
                (recorded-Cadence n m (checkpoint passive db) (c db) h (omega (arith, v.in_time))
                  (ground (arith, v.spaced, v.in_time)) v.few)
        ]

    pub after_write-Cadence :
        (n : ℕ) (r : WriterRuntime) (m : PoolMetrics) (db : Db)
        → o.enabled ≡ true
        → o.checkpoint_interval_commits ≤ max_maintenance_interval_commits
        → IsCalm
        → suc n < 2 ^ 64
        → Cadence n r m
        → let (r', m', db') = after_write checkpoint r m db in Cadence (suc n) r' m'
    after_write-Cadence n r m db on small c h v =
        let shape : r ≡ record {
          maintenance = o;
          commits_since_maintenance = r.commits_since_maintenance;
          wal_pressure = false;
        } =
          λ i. record {
            maintenance = v.policy i;
            commits_since_maintenance = r.commits_since_maintenance;
            wal_pressure = v.calm i;
          } in
        subst (λ x. let (r', m', db') = after_write checkpoint x m db in Cadence (suc n) r' m')
          (sym shape)
          (kept-Cadence n r.commits_since_maintenance m db on small c h (record {
            policy = refl;
            calm = refl;
            spaced = v.spaced;
            in_time = v.in_time;
            few = v.few;
          }))
