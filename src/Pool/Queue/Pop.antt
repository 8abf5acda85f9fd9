-- ===== src/Pool/Queue/Pop.antt =====
-- crates/csgdb/src/pool.rs, `WriteQueue::pop`: what the writer takes from the queue.
use csgdb.Prelude.{
  ℕ, zero, suc, ◌-◌, ◌≤◌, ◌≡◌, refl, ap, subst, ◌⊎◌, inl, inr, Bool, true, false, not, List, [],
  ◌∷◌, ◌++◌, map, Option, some, none, length, arith,
}
use csgdb.Pool.Queue.{
  WriteJob, DequeuedWrite, WriteQueueState, Event, Popped, late, woken, exclusive, groupable,
  add_first, as_group, gather, pop_from, pop,
}

module _ {E G : Type 0} where
  -- The jobs that other threads add while the writer waits.
  abbrev pub arrivals : List (Event E G) → List (WriteJob E G)
  arrivals [] = []
  arrivals (late ∷ es) = arrivals es
  arrivals (woken arrived closed timed_out ∷ es) = arrived ++ arrivals es

  abbrev pub jobs_of : Option (DequeuedWrite E G) → List (WriteJob E G)
  jobs_of none = []
  jobs_of (some (DequeuedWrite.exclusive op c)) = exclusive op c ∷ []
  jobs_of (some (DequeuedWrite.group gs)) = map groupable gs

  -- A groupable job is not at the front.
  abbrev pub IsBarrier : List (WriteJob E G) → Type 0
  IsBarrier (groupable g ∷ q) = ⊥
  IsBarrier _ = Unit {0}

  -- What a group is, when up to `room` jobs of `q` and of what arrives may join it.
  pub record Gathered (room : ℕ) (q : List (WriteJob E G)) (es : List (Event E G))
      (p : Popped E G (List G)) : Type 0 where
    pub in_order : q ++ arrivals es ≡ map groupable p.value ++ (p.state.jobs ++ arrivals p.events)
    pub within : length p.value ≤ room
    pub whole : (length p.value ≡ room) ⊎ IsBarrier p.state.jobs

  abbrev Gathers :
      ℕ → List (WriteJob E G) → List (Event E G) → Option (Popped E G (List G)) → Type 0
  Gathers room q es none = Unit {0}
  Gathers room q es (some p) = Gathered room q es p

  Gathers-add_first :
      (room : ℕ) (g : G) (q : List (WriteJob E G)) (es : List (Event E G))
      (r : Option (Popped E G (List G)))
      → Gathers room q es r
      → Gathers (suc room) (groupable g ∷ q) es (add_first g r)
  Gathers-add_first room g q es none h = tt
  Gathers-add_first room g q es (some p) h = record {
    in_order = ap (◌∷◌ (groupable g)) h.in_order;
    within = omega (arith, h.within);
    whole = elim h.whole [ inl e ↦ inl (ap suc e) | inr b ↦ inr b ];
  }

  Gathers-woken :
      (room : ℕ) (arrived : List (WriteJob E G)) (closed timed_out : Bool) (es : List (Event E G))
      (r : Option (Popped E G (List G)))
      → Gathers room arrived es r
      → Gathers room [] (woken arrived closed timed_out ∷ es) r
  Gathers-woken room arrived closed timed_out es none h = tt
  Gathers-woken room arrived closed timed_out es (some p) h = record {
    in_order = h.in_order;
    within = h.within;
    whole = h.whole;
  }

  gather-Gathers :
      (room : ℕ) (q : List (WriteJob E G)) (a : Bool) (es : List (Event E G))
      → Gathers room q es (gather room q a es)
  unfolding gather
  gather-Gathers zero q a es = record { in_order = refl; within = omega arith; whole = inl refl }
  gather-Gathers (suc room) (groupable g ∷ q) a es =
      Gathers-add_first room g q es (gather room q a es) (gather-Gathers room q a es)
  gather-Gathers (suc room) (exclusive op c ∷ q) a es = record {
    in_order = refl;
    within = omega arith;
    whole = inr tt;
  }
  gather-Gathers (suc room) [] false es = record {
    in_order = refl;
    within = omega arith;
    whole = inr tt;
  }
  gather-Gathers (suc room) [] true [] = tt
  gather-Gathers (suc room) [] true (late ∷ es) = record {
    in_order = refl;
    within = omega arith;
    whole = inr tt;
  }
  gather-Gathers (suc room) [] true (woken [] closed true ∷ es) = record {
    in_order = refl;
    within = omega arith;
    whole = inr tt;
  }
  gather-Gathers (suc room) [] true (woken [] closed false ∷ es) =
      Gathers-woken (suc room) [] closed false es _ (gather-Gathers (suc room) [] (not closed) es)
  gather-Gathers (suc room) [] true (woken (j ∷ js) closed true ∷ es) =
      Gathers-woken (suc room) (j ∷ js) closed true es _
        (gather-Gathers (suc room) (j ∷ js) (not closed) es)
  gather-Gathers (suc room) [] true (woken (j ∷ js) closed false ∷ es) =
      Gathers-woken (suc room) (j ∷ js) closed false es _
        (gather-Gathers (suc room) (j ∷ js) (not closed) es)

  -- What the writer gets: one exclusive job; or a group, of one job at least and `max_jobs` at most,
  -- that was cut short only by a barrier; or word that the queue is closed and empty.
  abbrev pub Proper : ℕ → Option (DequeuedWrite E G) → WriteQueueState E G → Type 0
  Proper max_jobs none s = (s.jobs ≡ []) × (s.accepting ≡ false)
  Proper max_jobs (some (DequeuedWrite.exclusive op c)) s = Unit {0}
  Proper max_jobs (some (DequeuedWrite.group gs)) s =
      (1 ≤ length gs) × (length gs ≤ max_jobs) × ((length gs ≡ max_jobs) ⊎ IsBarrier s.jobs)

  -- Nothing is lost, doubled or overtaken, and what is taken is proper.
  pub record Delivered (max_jobs : ℕ) (q : List (WriteJob E G)) (es : List (Event E G))
      (p : Popped E G (Option (DequeuedWrite E G))) : Type 0 where
    pub in_order : q ++ arrivals es ≡ jobs_of p.value ++ (p.state.jobs ++ arrivals p.events)
    pub proper : Proper max_jobs p.value p.state

  abbrev Delivers :
      ℕ
      → List (WriteJob E G)
      → List (Event E G)
      → Option (Popped E G (Option (DequeuedWrite E G)))
      → Type 0
  Delivers max_jobs q es none = Unit {0}
  Delivers max_jobs q es (some p) = Delivered max_jobs q es p

  as_group-Delivers :
      (max_jobs : ℕ) (g : G) (q : List (WriteJob E G)) (es : List (Event E G))
      (r : Option (Popped E G (List G)))
      → 1 ≤ max_jobs
      → Gathers (max_jobs - 1) q es r
      → Delivers max_jobs (groupable g ∷ q) es (as_group (add_first g r))
  as_group-Delivers max_jobs g q es none m h = tt
  as_group-Delivers max_jobs g q es (some p) m h = record {
    in_order = ap (◌∷◌ (groupable g)) h.in_order;
    proper = (
      omega arith,
      omega (arith, h.within),
      elim h.whole [ inl e ↦ inl (omega (arith, e)) | inr b ↦ inr b ],
    );
  }

  Delivers-woken :
      (max_jobs : ℕ) (arrived : List (WriteJob E G)) (closed timed_out : Bool)
      (es : List (Event E G)) (r : Option (Popped E G (Option (DequeuedWrite E G))))
      → Delivers max_jobs arrived es r
      → Delivers max_jobs [] (woken arrived closed timed_out ∷ es) r
  Delivers-woken max_jobs arrived closed timed_out es none h = tt
  Delivers-woken max_jobs arrived closed timed_out es (some p) h = record {
    in_order = h.in_order;
    proper = h.proper;
  }

  Delivers-late :
      (max_jobs : ℕ) (es : List (Event E G)) (r : Option (Popped E G (Option (DequeuedWrite E G))))
      → Delivers max_jobs [] es r
      → Delivers max_jobs [] (late ∷ es) r
  Delivers-late max_jobs es none h = tt
  Delivers-late max_jobs es (some p) h = record { in_order = h.in_order; proper = h.proper }

  pop_from-Delivers :
      (max_jobs : ℕ) (q : List (WriteJob E G)) (a : Bool) (es : List (Event E G))
      → 1 ≤ max_jobs
      → Delivers max_jobs q es (pop_from max_jobs q a es)
  unfolding pop_from
  pop_from-Delivers max_jobs (exclusive op c ∷ q) a es m = record { in_order = refl; proper = tt }
  pop_from-Delivers max_jobs (groupable g ∷ q) a es m =
      as_group-Delivers max_jobs g q es _ m (gather-Gathers (max_jobs - 1) q a es)
  pop_from-Delivers max_jobs [] false es m = record { in_order = refl; proper = (refl, refl) }
  pop_from-Delivers max_jobs [] true [] m = tt
  pop_from-Delivers max_jobs [] true (late ∷ es) m =
      Delivers-late max_jobs es _ (pop_from-Delivers max_jobs [] true es m)
  pop_from-Delivers max_jobs [] true (woken arrived closed timed_out ∷ es) m =
      Delivers-woken max_jobs arrived closed timed_out es _
        (pop_from-Delivers max_jobs arrived (not closed) es m)

  -- Whatever arrives meanwhile, what the writer takes is the front of the queue in order of
  -- submission: an exclusive job alone, or a group of between 1 and `max_jobs` groupable jobs, short
  -- of `max_jobs` only if an exclusive job or nothing follows it. It is told to stop only when the
  -- queue is closed and empty.
  pub pop-Delivered :
      (max_jobs : ℕ) (s : WriteQueueState E G) (es : List (Event E G))
      (p : Popped E G (Option (DequeuedWrite E G)))
      → 1 ≤ max_jobs
      → pop max_jobs s es ≡ some p
      → Delivered max_jobs s.jobs es p
  unfolding pop
  pop-Delivered max_jobs s es p m e =
      subst (Delivers max_jobs s.jobs es) e (pop_from-Delivers max_jobs s.jobs s.accepting es m)

  -- Word to stop comes only of a queue that is closed and empty.
  pub Proper-none :
      (max_jobs : ℕ) (value : Option (DequeuedWrite E G)) (s : WriteQueueState E G)
      → Proper max_jobs value s
      → value ≡ none
      → (s.jobs ≡ []) × (s.accepting ≡ false)
  Proper-none max_jobs none s h e = h
  Proper-none max_jobs (some job) s h e = cc

  gather_closed :
      (room : ℕ) (q : List (WriteJob E G)) (es : List (Event E G))
      → (p : Popped E G (List G)) × (gather room q false es ≡ some p)
        × (p.state.accepting ≡ false)
        × (p.events ≡ es)
  unfolding gather
  gather_closed zero q es = (_, refl, refl, refl)
  gather_closed (suc room) (groupable g ∷ q) es =
      let r = gather_closed room q es in (_, ap (add_first g) r.1, r.2, r.3)
  gather_closed (suc room) (exclusive op c ∷ q) es = (_, refl, refl, refl)
  gather_closed (suc room) [] es = (_, refl, refl, refl)

  -- After a close the writer never waits again, and the queue stays closed.
  pub pop-closed :
      (max_jobs : ℕ) (q : List (WriteJob E G)) (es : List (Event E G))
      → (p : Popped E G (Option (DequeuedWrite E G))) × (pop max_jobs
            (record { jobs = q; accepting = false })
            es
          ≡ some p)
        × (p.state.accepting ≡ false)
        × (p.events ≡ es)
  unfolding pop
  pop-closed max_jobs (exclusive op c ∷ q) es = (_, refl, refl, refl)
  pop-closed max_jobs (groupable g ∷ q) es =
      let r = gather_closed (max_jobs - 1) q es in
      (_, ap (λ x. as_group (add_first g x)) r.1, r.2, r.3)
  pop-closed max_jobs [] es = (_, refl, refl, refl)
