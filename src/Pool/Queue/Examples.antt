-- ===== src/Pool/Queue/Examples.antt =====
-- Runs of the queue: jobs are numbers, an exclusive one and groupable ones.
use csgdb.Prelude.{ℕ, ◌≡◌, refl, true, false, List, [], ◌∷◌, Option, some, arith}
use csgdb.Core.Error.{err, write_queue_full, write_queue_timeout}
use csgdb.Pool.Queue.{
  WriteJob, DequeuedWrite, WriteQueueState, Wake, Event, Popped, exclusive, groupable, reject,
  timeout, woken, late, push, pop,
}
use csgdb.Pool.Queue.Push.{Ends, push_outcome}
use csgdb.Pool.Queue.Pop.{Delivered, pop-Delivered, pop-closed}

abbrev queue : List (WriteJob ℕ ℕ) → WriteQueueState ℕ ℕ
queue jobs = record { jobs = jobs; accepting = true }

abbrev full_queue : WriteQueueState ℕ ℕ
full_queue = queue (groupable 1 ∷ groupable 2 ∷ [])

abbrev found : WriteQueueState ℕ ℕ → ℕ → Wake ℕ ℕ
found s elapsed = record { state = s; timed_out = false; elapsed = elapsed }

rejected : push 2 (groupable 3) reject full_queue [] ≡ some (err write_queue_full, full_queue)
unfolding push
rejected = refl

timed_out_later :
    push 2 (groupable 3) (timeout 10) full_queue (found full_queue 4 ∷ found full_queue 10 ∷ [])
    ≡ some (err write_queue_timeout, full_queue)
unfolding push
timed_out_later = refl

push_outcome_example :
    Ends 2
      (groupable 3)
      (timeout 10)
      full_queue
      (found full_queue 4 ∷ found (queue []) 10 ∷ [])
      (push 2 (groupable 3) (timeout 10) full_queue (found full_queue 4 ∷ found (queue []) 10 ∷ []))
push_outcome_example =
    push_outcome 2 (groupable 3) (timeout 10) full_queue
      (found full_queue 4 ∷ found (queue []) 10 ∷ [])

-- Two adjacent writes, one that arrives, and an exclusive job that ends the group.
abbrev meanwhile : List (Event ℕ ℕ)
meanwhile = woken (groupable 3 ∷ exclusive 4 true ∷ []) false false ∷ late ∷ []

abbrev grouped : Popped ℕ ℕ (Option (DequeuedWrite ℕ ℕ))
grouped = record {
  value = some (DequeuedWrite.group (1 ∷ 2 ∷ 3 ∷ []));
  state = queue (exclusive 4 true ∷ []);
  events = late ∷ [];
}

pop-Delivered_example : Delivered 8 (groupable 1 ∷ groupable 2 ∷ []) meanwhile grouped
unfolding pop
pop-Delivered_example = pop-Delivered 8 full_queue meanwhile grouped (omega arith) refl

pop-closed_example :
    (p : Popped ℕ ℕ (Option (DequeuedWrite ℕ ℕ))) × (pop 8
        (record { jobs = groupable 1 ∷ []; accepting = false })
        []
      ≡ some p)
    × (p.state.accepting ≡ false)
    × (p.events ≡ [])
pop-closed_example = pop-closed 8 (groupable 1 ∷ []) []
