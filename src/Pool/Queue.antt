-- ===== src/Pool/Queue.antt =====
-- crates/csgdb/src/pool.rs, `WriteQueue`: the bounded queue between the submitting threads and the one
-- writer. A wait on a condition variable gives the lock away; what the thread finds when it wakes is
-- an argument here, one list entry for each wake-up, so that a theorem over all lists is one over all
-- interleavings. An answer of `none` means that the thread is still waiting when the list ends.
pub mod Push
pub mod Pop
pub mod Accepted
mod Examples
use csgdb.Prelude.{
  ℕ, zero, suc, ◌-◌, Bool, true, false, not, ◌&&◌, ◌||◌, List, [], ◌∷◌, ◌++◌, Option, none, some,
  length, leb, ltb, if◌then◌else◌,
}
use csgdb.Core.Error.{
  Result, ok, err, write_queue_full, write_queue_timeout, connection_manager_closed,
}

-- `E` is the boxed operation of an exclusive job, `G` a groupable write.
pub data WriteJob (E G : Type 0) : Type 0 where
  exclusive : E → Bool → WriteJob E G
  groupable : G → WriteJob E G

pub data DequeuedWrite (E G : Type 0) : Type 0 where
  exclusive : E → Bool → DequeuedWrite E G
  group : List G → DequeuedWrite E G

pub data WriteBackpressure : Type 0 where
  wait reject : WriteBackpressure
  timeout : ℕ → WriteBackpressure

pub record WriteQueueState (E G : Type 0) : Type 0 where
  pub jobs : List (WriteJob E G)
  pub accepting : Bool

-- A submitter's wake-up: the queue as it is then, whether the wait timed out, and the time since the
-- submission started.
pub record Wake (E G : Type 0) : Type 0 where
  pub state : WriteQueueState E G
  pub timed_out : Bool
  pub elapsed : ℕ

module _ {E G : Type 0} where
  unfoldable pub new : WriteQueueState E G
  new = record { jobs = []; accepting = true }

  abbrev pub is_full : ℕ → WriteQueueState E G → Bool
  is_full capacity s = leb capacity (length s.jobs)

  -- The end of `push`, common to the three policies.
  pub admit : WriteJob E G → WriteQueueState E G → Result (Unit {0}) × WriteQueueState E G
  admit job s =
      if s.accepting
      then (ok tt, record s { jobs = s.jobs ++ job ∷ [] })
      else (err connection_manager_closed, s)

  push_waiting :
      ℕ
      → WriteJob E G
      → WriteQueueState E G
      → List (Wake E G)
      → Option (Result (Unit {0}) × WriteQueueState E G)
  unfolding admit
  push_waiting capacity job s [] =
      if s.accepting && is_full capacity s then none else some (admit job s)
  push_waiting capacity job s (w ∷ ws) =
      let rest = push_waiting capacity job w.state ws in
      if s.accepting && is_full capacity s then rest else some (admit job s)

  push_timed :
      ℕ
      → WriteJob E G
      → ℕ
      → WriteQueueState E G
      → List (Wake E G)
      → Option (Result (Unit {0}) × WriteQueueState E G)
  unfolding admit
  push_timed capacity job limit s [] =
      if s.accepting && is_full capacity s then none else some (admit job s)
  push_timed capacity job limit s (w ∷ ws) =
      let rest = push_timed capacity job limit w.state ws in
      if not (s.accepting && is_full capacity s)
      then some (admit job s)
      else if ltb (length w.state.jobs) capacity
      then some (admit job w.state)
      else if w.timed_out || leb limit w.elapsed
      then some (err write_queue_timeout, w.state)
      else rest

  pub push :
      ℕ
      → WriteJob E G
      → WriteBackpressure
      → WriteQueueState E G
      → List (Wake E G)
      → Option (Result (Unit {0}) × WriteQueueState E G)
  unfolding push_waiting push_timed admit
  push capacity job wait s ws = push_waiting capacity job s ws
  push capacity job reject s ws =
      some (if is_full capacity s then (err write_queue_full, s) else admit job s)
  push capacity job (timeout limit) s ws = push_timed capacity job limit s ws

  -- `close`
  unfoldable pub close : WriteQueueState E G → WriteQueueState E G
  close s = record s { accepting = false }

  pub len : WriteQueueState E G → ℕ
  len s = length s.jobs

-- What the one consumer meets. While it waits the others only add jobs at the back and close the
-- queue. `late` is a reading of the clock that finds the deadline of the group passed.
pub data Event (E G : Type 0) : Type 0 where
  late : Event E G
  woken : (arrived : List (WriteJob E G)) (closed timed_out : Bool) → Event E G

pub record Popped (E G A : Type 0) : Type 0 where
  pub value : A
  pub state : WriteQueueState E G
  pub events : List (Event E G)

abbrev is_empty {ℓ} : {A : Type ℓ} → List A → Bool
is_empty [] = true
is_empty (x ∷ xs) = false

module _ {E G : Type 0} where
  abbrev left :
      {A : Type 0} → A → List (WriteJob E G) → Bool → List (Event E G) → Option (Popped E G A)
  left a jobs accepting es =
      some
        (record { value = a; state = record { jobs = jobs; accepting = accepting }; events = es })

  abbrev add_first : G → Option (Popped E G (List G)) → Option (Popped E G (List G))
  add_first g none = none
  add_first g (some p) = some (record { value = g ∷ p.value; state = p.state; events = p.events })

  -- The inner loop of `pop`: `room` more jobs fit into the group.
  pub gather : ℕ → List (WriteJob E G) → Bool → List (Event E G) → Option (Popped E G (List G))
  gather zero q a es = left [] q a es
  gather (suc room) (groupable g ∷ q) a es = add_first g (gather room q a es)
  gather (suc room) (exclusive op c ∷ q) a es = left [] (exclusive op c ∷ q) a es
  gather (suc room) [] false es = left [] [] false es
  gather (suc room) [] true [] = none
  gather (suc room) [] true (late ∷ es) = left [] [] true es
  gather (suc room) [] true (woken arrived closed timed_out ∷ es) =
      let rest = gather (suc room) arrived (not closed) es in
      if timed_out && is_empty arrived then left [] arrived (not closed) es else rest

  abbrev as_group : Option (Popped E G (List G)) → Option (Popped E G (Option (DequeuedWrite E G)))
  as_group none = none
  as_group (some p) =
      some
        (record { value = some (DequeuedWrite.group p.value); state = p.state; events = p.events })

  -- The `match first` of `pop`.
  dequeue :
      ℕ
      → WriteJob E G
      → List (WriteJob E G)
      → Bool
      → List (Event E G)
      → Option (Popped E G (Option (DequeuedWrite E G)))
  unfolding gather
  dequeue max_jobs (exclusive op c) q a es = left (some (DequeuedWrite.exclusive op c)) q a es
  dequeue max_jobs (groupable g) q a es = as_group (add_first g (gather (max_jobs - 1) q a es))

  pop_from :
      ℕ
      → List (WriteJob E G)
      → Bool
      → List (Event E G)
      → Option (Popped E G (Option (DequeuedWrite E G)))
  unfolding dequeue
  pop_from max_jobs (job ∷ q) a es = dequeue max_jobs job q a es
  pop_from max_jobs [] false es = left none [] false es
  pop_from max_jobs [] true [] = none
  pop_from max_jobs [] true (late ∷ es) = pop_from max_jobs [] true es
  pop_from max_jobs [] true (woken arrived closed timed_out ∷ es) =
      pop_from max_jobs arrived (not closed) es

  -- `pop`; the value `none` says that the queue is closed and drained.
  pub pop :
      ℕ → WriteQueueState E G → List (Event E G) → Option (Popped E G (Option (DequeuedWrite E G)))
  unfolding pop_from
  pop max_jobs s es = pop_from max_jobs s.jobs s.accepting es
