-- ===== src/Pool/Writer/Submit.antt =====
-- crates/csgdb/src/pool.rs, `write_internal` and `submit_groupable`: what a submission does to the queue
-- and to the counters.
use csgdb.Prelude.{
  ℕ, ◌≤◌, ◌<◌, ◌≡◌, refl, subst, sym, ◌⊎◌, inl, inr, true, false, List, [], ◌∷◌, ◌++◌, Option, some,
  none, length, fetch_add,
}
use csgdb.Core.Error.{
  Result, ok, err, reentrant_write, write_queue_full, write_queue_timeout,
  connection_manager_closed,
}
use csgdb.Pool.Runtime.{PoolMetrics}
use csgdb.Pool.Reentry.{ThreadState}
use csgdb.Pool.Reentry.Nesting.{Nested, admits_write-Nested}
use csgdb.Pool.Queue.{WriteJob, WriteBackpressure, WriteQueueState, Wake, push}
use csgdb.Pool.Queue.Push.{
  Seen, Outcome, Ends, AllFull, push_outcome, accepted, closed, full, timed_out,
}
use csgdb.Pool.Writer.{submit, checked, counted, count_submission}

module _ {E G : Type 0} (capacity : ℕ) (job : WriteJob E G) where
  -- How a submission ends at the queue `t` that it finds last, with the counters.
  pub data Settled (t : WriteQueueState E G) (m : PoolMetrics)
      : Result (Unit {0}) → WriteQueueState E G → PoolMetrics → Type 0 where
    queued :
        t.accepting ≡ true
        → length t.jobs < capacity
        → Settled t m
            (ok tt)
            (record t { jobs = t.jobs ++ job ∷ [] })
            (record m { write_jobs_submitted = fetch_add m.write_jobs_submitted 1 })
    stopped : t.accepting ≡ false → Settled t m (err connection_manager_closed) t m
    crowded :
        capacity ≤ length t.jobs
        → Settled t m
            (err write_queue_full)
            t
            (record m { write_jobs_rejected = fetch_add m.write_jobs_rejected 1 })
    late :
        capacity ≤ length t.jobs
        → Settled t m
            (err write_queue_timeout)
            t
            (record m { write_jobs_rejected = fetch_add m.write_jobs_rejected 1 })

  -- A nested call changes nothing, and waits for nothing.
  abbrev pub Submitted :
      (pool : ℕ)
      → ThreadState
      → WriteQueueState E G
      → PoolMetrics
      → List (Wake E G)
      → Option (Result (Unit {0}) × WriteQueueState E G × PoolMetrics)
      → Type 0
  Submitted pool thread s m wakes none = ¬ Nested pool thread × AllFull capacity s wakes
  Submitted pool thread s m wakes (some (r, s', m')) =
      (Nested pool thread × (r ≡ err reentrant_write) × (s' ≡ s) × (m' ≡ m))
      ⊎ (¬ Nested pool thread × ((t : WriteQueueState E G) × Seen t s wakes × Settled t m r s' m'))

  Settled-Outcome :
      (policy : WriteBackpressure) (t : WriteQueueState E G) (m : PoolMetrics)
      (r : Result (Unit {0})) (u : WriteQueueState E G)
      → Outcome capacity job policy t r u
      → Settled t m r u (count_submission r m)
  Settled-Outcome policy t m r u (accepted h room) = queued h room
  Settled-Outcome policy t m r u (closed h) = stopped h
  Settled-Outcome policy t m r u (full p h) = crowded h
  Settled-Outcome policy t m r u (timed_out limit p h) = late h

  counted-Submitted :
      (policy : WriteBackpressure) (pool : ℕ) (thread : ThreadState) (s : WriteQueueState E G)
      (m : PoolMetrics) (wakes : List (Wake E G))
      (pushed : Option (Result (Unit {0}) × WriteQueueState E G))
      → ¬ Nested pool thread
      → Ends capacity job policy s wakes pushed
      → Submitted pool thread s m wakes (counted m pushed)
  counted-Submitted policy pool thread s m wakes none a h = (a, h)
  counted-Submitted policy pool thread s m wakes (some (r, u)) a (t, seen, out) =
      inr (a, (t, seen, Settled-Outcome policy t m r u out))

-- A submission on the writer's thread, or inside a read callback of the pool at any depth, is refused as
-- REENTRANT_WRITE and changes nothing, and no other is.
-- Any other ends at a queue `t` that it found: its job is at the back of `t`, which was open and had
-- room, and one more job is counted as submitted; or `t` was full, stays, and one more job is counted as
-- rejected; or `t` is closed and nothing changes. It waits still only if all that it found were full.
pub submit_outcome :
    {E G : Type 0} (capacity pool : ℕ) (thread : ThreadState) (job : WriteJob E G)
    (policy : WriteBackpressure) (s : WriteQueueState E G) (m : PoolMetrics)
    (wakes : List (Wake E G))
    → Submitted capacity job pool thread s m wakes
        (submit capacity pool thread job policy s m wakes)
unfolding submit
submit_outcome capacity pool thread job policy s m wakes =
    let pushed = counted m (push capacity job policy s wakes) in
    elim (admits_write-Nested pool thread) [
      | inl (nested, a) ↦
          subst (λ r. Submitted capacity job pool thread s m wakes (checked s m r pushed)) (sym a)
            (inl (nested, refl, refl, refl))
      | inr (free, a) ↦
          subst (λ r. Submitted capacity job pool thread s m wakes (checked s m r pushed)) (sym a)
            (counted-Submitted capacity job policy pool thread s m wakes
              (push capacity job policy s wakes) free (push_outcome capacity job policy s wakes))
    ]
