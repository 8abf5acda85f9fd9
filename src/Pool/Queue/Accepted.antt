-- ===== src/Pool/Queue/Accepted.antt =====
-- crates/csgdb/src/pool.rs, `WriteQueue`: which jobs an open queue takes while its consumer waits or is
-- busy, and that `pop` keeps them all.
use csgdb.Prelude.{
  ℕ, zero, suc, ◌-◌, ◌≡◌, refl, inl, inr, Bool-cases, Bool, true, false, not, ◌&&◌, List, [], ◌∷◌,
  ◌++◌, map, Option, some, none, arith,
}
use csgdb.Pool.Queue.{
  WriteJob, DequeuedWrite, WriteQueueState, Event, Popped, late, woken, exclusive, groupable,
  is_empty, add_first, as_group, gather, dequeue, pop_from, pop,
}
use csgdb.Pool.Queue.Pop.{jobs_of}

module _ {E G : Type 0} where
  -- The jobs that an open queue takes from other threads, until one closes it.
  abbrev pub accepted : Bool → List (Event E G) → List (WriteJob E G)
  accepted false es = []
  accepted true [] = []
  accepted true (late ∷ es) = accepted true es
  accepted true (woken arrived closed timed_out ∷ es) = arrived ++ accepted (not closed) es

  abbrev pub all_events : List (List (Event E G)) → List (Event E G)
  all_events [] = []
  all_events (es ∷ turns) = es ++ all_events turns

module _ {E G : Type 0} (later : List (Event E G)) where
  -- What was queued and what came is what was taken, what is queued still and what is yet to come.
  abbrev Keeps : {A : Type 0} → List (WriteJob E G) → List (WriteJob E G) → Popped E G A → Type 0
  Keeps before taken p =
      before ≡ taken ++ (p.state.jobs ++ accepted p.state.accepting (p.events ++ later))

  add_first-Keeps :
      (g : G) (before : List (WriteJob E G)) (r : Option (Popped E G (List G)))
      (p : Popped E G (List G))
      → ((p' : Popped E G (List G)) → r ≡ some p' → Keeps before (map groupable p'.value) p')
      → add_first g r ≡ some p
      → Keeps (groupable g ∷ before) (map groupable p.value) p
  add_first-Keeps g before none p keeps h = cc
  add_first-Keeps g before (some p') p keeps h = ground (arith, h, keeps p' refl)

  gather-Keeps :
      (room : ℕ) (q : List (WriteJob E G)) (a : Bool) (es : List (Event E G))
      (p : Popped E G (List G))
      → gather room q a es ≡ some p
      → Keeps (q ++ accepted a (es ++ later)) (map groupable p.value) p
  unfolding gather
  gather-Keeps zero q a es p h = ground (arith, h)
  gather-Keeps (suc room) (groupable g ∷ q) a es p h =
      add_first-Keeps g (q ++ accepted a (es ++ later)) (gather room q a es) p
        (gather-Keeps room q a es) h
  gather-Keeps (suc room) (exclusive op c ∷ q) a es p h = ground (arith, h)
  gather-Keeps (suc room) [] false es p h = ground (arith, h)
  gather-Keeps (suc room) [] true [] p h = cc
  gather-Keeps (suc room) [] true (late ∷ es) p h = ground (arith, h)
  gather-Keeps (suc room) [] true (woken arrived closed timed_out ∷ es) p h =
      elim (Bool-cases (timed_out && is_empty arrived)) [
        | inl t ↦ ground (arith, h, t)
        | inr t ↦ gather-Keeps (suc room) arrived (not closed) es p (ground (arith, h, t))
      ]

  as_group-Keeps :
      (before : List (WriteJob E G)) (r : Option (Popped E G (List G)))
      (p : Popped E G (Option (DequeuedWrite E G)))
      → ((p' : Popped E G (List G)) → r ≡ some p' → Keeps before (map groupable p'.value) p')
      → as_group r ≡ some p
      → Keeps before (jobs_of p.value) p
  as_group-Keeps before none p keeps h = cc
  as_group-Keeps before (some p') p keeps h = ground (arith, h, keeps p' refl)

  pop_from-Keeps :
      (max_jobs : ℕ) (q : List (WriteJob E G)) (a : Bool) (es : List (Event E G))
      (p : Popped E G (Option (DequeuedWrite E G)))
      → pop_from max_jobs q a es ≡ some p
      → Keeps (q ++ accepted a (es ++ later)) (jobs_of p.value) p
  unfolding pop_from dequeue
  pop_from-Keeps max_jobs (exclusive op c ∷ q) a es p h = ground (arith, h)
  pop_from-Keeps max_jobs (groupable g ∷ q) a es p h =
      as_group-Keeps (groupable g ∷ (q ++ accepted a (es ++ later)))
        (add_first g (gather (max_jobs - 1) q a es)) p
        (λ p' e.
          add_first-Keeps g (q ++ accepted a (es ++ later)) (gather (max_jobs - 1) q a es) p'
            (gather-Keeps (max_jobs - 1) q a es) e)
        h
  pop_from-Keeps max_jobs [] false es p h = ground (arith, h)
  pop_from-Keeps max_jobs [] true [] p h = cc
  pop_from-Keeps max_jobs [] true (late ∷ es) p h = pop_from-Keeps max_jobs [] true es p h
  pop_from-Keeps max_jobs [] true (woken arrived closed timed_out ∷ es) p h =
      pop_from-Keeps max_jobs arrived (not closed) es p h

  pub pop-Keeps :
      (max_jobs : ℕ) (s : WriteQueueState E G) (es : List (Event E G))
      (p : Popped E G (Option (DequeuedWrite E G)))
      → pop max_jobs s es ≡ some p
      → s.jobs ++ accepted s.accepting (es ++ later)
        ≡ jobs_of p.value ++ (p.state.jobs ++ accepted p.state.accepting (p.events ++ later))
  unfolding pop
  pop-Keeps max_jobs s es p h = pop_from-Keeps max_jobs s.jobs s.accepting es p h
