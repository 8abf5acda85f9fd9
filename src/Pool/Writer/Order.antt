-- ===== src/Pool/Writer/Order.antt =====
-- crates/csgdb/src/pool.rs, `writer_main`: every accepted job is answered once and in order.
use csgdb.Prelude.{
  ℕ, ◌≤◌, ◌≡◌, refl, ap, sym, subst, ◌∙◌, Bool, true, false, not, List, [], ◌∷◌, ◌++◌, append_assoc,
  map, Option, Option-cases, inl, inr, some, none, arith,
}
use csgdb.Core.Error.{Result}
use csgdb.Pool.Options.{PoolOptions}
use csgdb.Pool.Runtime.{PoolMetrics}
use csgdb.Pool.Queue.{
  WriteJob, DequeuedWrite, WriteQueueState, Event, late, woken, exclusive, groupable, pop,
}
use csgdb.Pool.Queue.Pop.{jobs_of, Proper-none, pop-Delivered}
use csgdb.Pool.Queue.Accepted.{accepted, all_events, pop-Keeps}
use csgdb.Pool.Group.{GroupableWrite, execute_group_commit}
use csgdb.Pool.Group.Channels.{channels, submitters, channels-execute_group_commit}
use csgdb.Pool.Writer.{
  Connection, Writer, Job, Taken, JobQueue, Events, Sent, Progress, settle, sent_of, run_dequeued,
  after_pop, after_value, writer_loop, writer_main, started, activated, stopped,
}

module _ {E G : Type 0} where
  pub settle-closed :
      (es : List (Event E G)) (s : WriteQueueState E G) → s.accepting ≡ false → settle es s ≡ s
  unfolding settle
  settle-closed [] s h = refl
  settle-closed (late ∷ es) s h = settle-closed es s h
  settle-closed (woken arrived closed timed_out ∷ es) s h = ground (arith, h, settle-closed es s h)

  abbrev pub with_jobs : List (WriteJob E G) → Bool → WriteQueueState E G
  with_jobs jobs accepting = record { jobs = jobs; accepting = accepting }

  -- The jobs that come in two stretches of time are those of the first and then those of the second.
  accepted-append :
      (jobs : List (WriteJob E G)) (a : Bool) (es later : List (Event E G))
      → jobs ++ accepted a (es ++ later)
        ≡ (settle es (with_jobs jobs a)).jobs
          ++ accepted (settle es (with_jobs jobs a)).accepting later
  unfolding settle
  accepted-append jobs false es later =
      ap (λ s. s.jobs ++ accepted s.accepting later)
        (sym (settle-closed es (with_jobs jobs false) refl))
  accepted-append jobs true [] later = refl
  accepted-append jobs true (late ∷ es) later = accepted-append jobs true es later
  accepted-append jobs true (woken arrived closed timed_out ∷ es) later =
      sym (append_assoc jobs arrived (accepted (not closed) (es ++ later)))
      ∙ accepted-append (jobs ++ arrived) (not closed) es later

abbrev pub answered : {R A : Type 0} → Sent R A → List R
answered = map (λ a. a.0)

module _ (c : Connection) {R A : Type 0} where
  -- The channel on which the job's submitter waits.
  abbrev pub channel_of : Job c R A → R
  channel_of (exclusive job counts) = job.response
  channel_of (groupable job) = job.response

  abbrev pub waiting_for : List (Job c R A) → List R
  waiting_for = map channel_of

module _ (c : Connection) {R : Type 0} (A : Type 0) where
  answered-sent_of :
      (responses : List (R × Result (List ℕ)))
      → let sent : Sent R A = sent_of c responses in answered sent ≡ channels responses
  answered-sent_of [] = refl
  answered-sent_of ((channel, r) ∷ rest) = ap (◌∷◌ channel) (answered-sent_of rest)

  waiting_for-groupable :
      (jobs : List (GroupableWrite R))
      → let queued : List (Job c R A) = map groupable jobs in waiting_for c queued ≡ submitters jobs
  waiting_for-groupable [] = refl
  waiting_for-groupable (job ∷ jobs) = ap (◌∷◌ job.response) (waiting_for-groupable jobs)

module _ (c : Connection) {R A : Type 0} where
  -- What the writer takes is answered, each job on its own channel.
  answered-run_dequeued :
      (job : Taken c R A) (w : Writer c)
      → answered (run_dequeued c job w).0 ≡ waiting_for c (jobs_of (some job))
  unfolding run_dequeued
  answered-run_dequeued (DequeuedWrite.exclusive job counts) w = refl
  answered-run_dequeued (DequeuedWrite.group jobs) w =
      answered-sent_of c A
        (execute_group_commit c.engine jobs (activated true w.metrics) w.database).0.responses
      ∙ (channels-execute_group_commit c.engine jobs (activated true w.metrics) w.database
          ∙ sym (waiting_for-groupable c A jobs))

  waiting_for-append :
      (xs ys : List (Job c R A)) → waiting_for c (xs ++ ys) ≡ waiting_for c xs ++ waiting_for c ys
  waiting_for-append [] ys = refl
  waiting_for-append (x ∷ xs) ys = ap (◌∷◌ (channel_of c x)) (waiting_for-append xs ys)

  answered-append : (xs ys : Sent R A) → answered (xs ++ ys) ≡ answered xs ++ answered ys
  answered-append [] ys = refl
  answered-append (x ∷ xs) ys = ap (◌∷◌ x.0) (answered-append xs ys)

  -- Nothing accepted is lost: each job's submitter has its answer, in order, or waits for it still; after
  -- the end none waits.
  abbrev pub Answered : List (Job c R A) → Progress c R A → Type 0
  Answered jobs p =
      (pending : List R) × (waiting_for c jobs ≡ answered p.sent ++ pending)
      × (((result : Result (Unit {0})) → p.phase ≡ stopped result → pending ≡ []))

  module _ (max_jobs : ℕ) where
    after_value-Answered :
        (before : List (Job c R A)) (value : Option (Taken c R A)) (jobs : List (Job c R A))
        (a : Bool) (es later : Events c R A) (w : Writer c)
        (go_on : JobQueue c R A → Writer c → Progress c R A)
        → before ≡ jobs_of value ++ (jobs ++ accepted a (es ++ later))
        → (value ≡ none → (jobs ≡ []) × (a ≡ false))
        → ((s : JobQueue c R A) (w : Writer c)
            → Answered (s.jobs ++ accepted s.accepting later) (go_on s w))
        → Answered before (after_value c max_jobs value (with_jobs jobs a) es w go_on)
    after_value-Answered before none jobs a es later w go_on e drained h =
        let (empty, closed) = drained refl in
        ([], ground (arith, e, empty, closed), λ result g. refl)
    after_value-Answered before (some job) jobs a es later w go_on e drained h =
        let (first, w') = run_dequeued c job w in
        let s = settle es (with_jobs jobs a) in
        let (pending, order, ended) = h s w' in
        let came =
          ap (λ js. waiting_for c (jobs_of (some job) ++ js)) (accepted-append jobs a es later) in
        let apart =
          waiting_for-append (jobs_of (some job)) (s.jobs ++ accepted s.accepting later) in
        let here = answered-run_dequeued job w in
        let both = answered-append first (go_on s w').sent in
        let assoc = append_assoc (answered first) (answered (go_on s w').sent) pending in
        let total = ap (waiting_for c) e in (pending, cc, ended)

    pub writer_loop-Answered :
        (turns : List (Events c R A)) (s : JobQueue c R A) (w : Writer c)
        → 1 ≤ max_jobs
        → Answered
            (s.jobs ++ accepted s.accepting (all_events turns))
            (writer_loop c max_jobs turns s w)
    unfolding writer_loop
    writer_loop-Answered [] s w m =
        (waiting_for c (s.jobs ++ accepted s.accepting []), refl, λ result h. cc)
    writer_loop-Answered (es ∷ turns) s w m =
        let before = s.jobs ++ accepted s.accepting (es ++ all_events turns) in
        elim (Option-cases (pop max_jobs s es)) [
          | inl e ↦
              subst
                (λ r. Answered before (after_pop c max_jobs s w r (writer_loop c max_jobs turns)))
                (sym e) (waiting_for c before, refl, λ result h. cc)
          | inr (p, e) ↦
              let d = pop-Delivered max_jobs s es p m e in
              subst
                (λ r. Answered before (after_pop c max_jobs s w r (writer_loop c max_jobs turns)))
                (sym e)
                (after_value-Answered before p.value p.state.jobs p.state.accepting p.events
                  (all_events turns) w (writer_loop c max_jobs turns)
                  (pop-Keeps (all_events turns) max_jobs s es p e)
                  (Proper-none max_jobs p.value p.state d.proper)
                  (λ s' w'. writer_loop-Answered turns s' w' m))
        ]

-- At every moment the submitters of the jobs that the queue has accepted, in order of acceptance, are
-- those that the writer has answered and then those that wait still; once it has stopped, none waits.
pub writer_main-Answered :
    (c : Connection) {R A : Type 0} (options : PoolOptions) (turns : List (Events c R A))
    (s : JobQueue c R A) (m : PoolMetrics) (db : c.engine.Db)
    → 1 ≤ (options.group_commit).max_jobs
    → Answered c
        (s.jobs ++ accepted s.accepting (all_events turns))
        (writer_main c options turns s m db)
unfolding writer_main
writer_main-Answered c options turns s m db few =
    writer_loop-Answered c (options.group_commit).max_jobs turns s (started c options m db) few
