-- ===== src/Pool/Writer/Drain.antt =====
-- crates/csgdb/src/pool.rs, `writer_main` after the queue is closed: the writer answers what is queued
-- and stops.
use csgdb.Prelude.{
  ℕ, ◌+◌, ◌≤◌, ◌<◌, ◌≡◌, refl, ap, sym, subst, ◌∙◌, Bool, true, false, List, [], ◌∷◌, ◌++◌,
  append-nil, Option, some, none, length, length-append, length-map, arith,
}
use csgdb.Core.Error.{Result}
use csgdb.Pool.Options.{PoolOptions}
use csgdb.Pool.Runtime.{PoolMetrics}
use csgdb.Pool.Queue.{WriteJob, DequeuedWrite, WriteQueueState, Event, groupable, pop, close}
use csgdb.Pool.Queue.Pop.{jobs_of, Proper, pop-Delivered, pop-closed}
use csgdb.Pool.Queue.Accepted.{accepted, pop-Keeps}
use csgdb.Pool.Writer.{
  Connection, Writer, Taken, JobQueue, Events, Progress, run_dequeued, after_pop, after_value,
  writer_loop, writer_main, started, stopped,
}
use csgdb.Pool.Writer.Order.{settle-closed, answered, waiting_for, writer_loop-Answered}

-- A turn takes at least one job.
Proper-length :
    {E G : Type 0} (max_jobs : ℕ) (job : DequeuedWrite E G) (s : WriteQueueState E G)
    → Proper max_jobs (some job) s
    → 1 ≤ length (jobs_of (some job))
Proper-length max_jobs (DequeuedWrite.exclusive op c) s h = omega arith
Proper-length max_jobs (DequeuedWrite.group gs) s h = omega (arith, h.0, length-map gs groupable)

-- With a closed queue nothing comes, so the jobs are those taken and those left.
closed-length :
    {E G : Type 0} (jobs taken rest : List (WriteJob E G)) (a a' : Bool) (es es' : List (Event E G))
    → a ≡ false
    → a' ≡ false
    → jobs ++ accepted a es ≡ taken ++ (rest ++ accepted a' es')
    → length jobs ≡ length taken + length rest
closed-length jobs taken rest true a' es es' h h' e = cc
closed-length jobs taken rest false true es es' h h' e = cc
closed-length jobs taken rest false false es es' h h' e =
    let front = length-append jobs [] in
    let back = length-append taken (rest ++ []) in
    let left = length-append rest [] in omega (arith, front, back, left, ap length e)

module _ (c : Connection) {R A : Type 0} (max_jobs : ℕ) where
  abbrev pub Stops : Progress c R A → Type 0
  Stops p =
      (result : Result (Unit {0})) × (p.phase ≡ stopped result)
      × (result ≡ c.close p.writer.database)
      × (p.writer.in_write_worker ≡ false)

  after_value-Stops :
      (value : Option (Taken c R A)) (s : JobQueue c R A) (es : Events c R A) (w : Writer c)
      (go_on : JobQueue c R A → Writer c → Progress c R A)
      → s.accepting ≡ false
      → ((job : Taken c R A) → value ≡ some job → (w' : Writer c) → Stops (go_on s w'))
      → Stops (after_value c max_jobs value s es w go_on)
  after_value-Stops none s es w go_on a h = (c.close w.database, refl, refl, refl)
  after_value-Stops (some job) s es w go_on a h =
      subst (λ s'. Stops (go_on s' (run_dequeued c job w).1)) (sym (settle-closed es s a))
        (h job refl (run_dequeued c job w).1)

  writer_loop-Stops :
      (turns : List (Events c R A)) (s : JobQueue c R A) (w : Writer c)
      → 1 ≤ max_jobs
      → s.accepting ≡ false
      → length s.jobs < length turns
      → Stops (writer_loop c max_jobs turns s w)
  unfolding writer_loop
  writer_loop-Stops [] s w m a l = absurd (omega (arith, l))
  writer_loop-Stops (es ∷ turns) s w m a l =
      let (p, e, closed, _) = pop-closed max_jobs s.jobs es in
      let e' : pop max_jobs s es ≡ some p =
        ap (λ b. pop max_jobs (record { jobs = s.jobs; accepting = b }) es) a ∙ e in
      let d = pop-Delivered max_jobs s es p m e' in
      let fewer =
        closed-length s.jobs (jobs_of p.value) p.state.jobs s.accepting p.state.accepting (es ++ [])
          (p.events ++ []) a closed (pop-Keeps [] max_jobs s es p e') in
      let shorter : (job : Taken c R A) → p.value ≡ some job → length p.state.jobs < length turns =
        λ job is.
          let taken =
            Proper-length max_jobs job p.state
              (subst (λ v. Proper max_jobs v p.state) is d.proper) in
          omega (arith, l, fewer, ap (λ v. length (jobs_of v)) is, taken) in
      subst (λ r. Stops (after_pop c max_jobs s w r (writer_loop c max_jobs turns))) (sym e')
        (after_value-Stops p.value p.state p.events w (writer_loop c max_jobs turns) closed
          (λ job is w'. writer_loop-Stops turns p.state w' m closed (shorter job is)))

-- After a close the writer takes at most as many turns as jobs are queued, whatever happens meanwhile,
-- and stops with the result of closing the connection. Every queued job has then been answered once, on
-- its own channel and in the order of submission.
pub writer_main-drains :
    (c : Connection) {R A : Type 0} (options : PoolOptions) (turns : List (Events c R A))
    (s : JobQueue c R A) (m : PoolMetrics) (db : c.engine.Db)
    → 1 ≤ (options.group_commit).max_jobs
    → length s.jobs < length turns
    → let p = writer_main c options turns (close s) m db in
      (p.phase ≡ stopped (c.close p.writer.database))
      × (p.writer.in_write_worker ≡ false)
      × (answered p.sent ≡ waiting_for c s.jobs)
unfolding writer_main close
writer_main-drains c options turns s m db few enough =
    let max_jobs = (options.group_commit).max_jobs in
    let (result, stops, is, off) =
      writer_loop-Stops c max_jobs turns (close s) (started c options m db) few refl enough in
    let (pending, order, ended) =
      writer_loop-Answered c max_jobs turns (close s) (started c options m db) few in
    let none_left = ended result stops in
    let queued = append-nil s.jobs in
    let sent =
      append-nil
        (answered (writer_loop c max_jobs turns (close s) (started c options m db)).sent) in
    (stops ∙ ap stopped is, off, cc)
