-- ===== src/Pool/Queue/Push.antt =====
-- What a submission does to the queue, under every policy and whatever other threads do meanwhile.
use csgdb.Prelude.{
  ℕ, ◌≤◌, ◌<◌, ◌≡◌, refl, ◌⊎◌, inl, inr, Bool, true, false, not, ◌&&◌, ◌||◌, List, [], ◌∷◌, ◌++◌,
  Option, some, none, length, leb, ltb, arith, if◌then◌else◌,
}
use csgdb.Core.Error.{
  Result, ok, err, write_queue_full, write_queue_timeout, connection_manager_closed,
}
use csgdb.Pool.Queue.{
  WriteJob, WriteBackpressure, WriteQueueState, Wake, wait, reject, timeout, is_full, admit,
  push_waiting, push_timed, push,
}

module _ {E G : Type 0} where
  -- The queue that a submission finds first, or on some wake-up.
  abbrev pub Seen : WriteQueueState E G → WriteQueueState E G → List (Wake E G) → Type 0
  Seen t s [] = t ≡ s
  Seen t s (w ∷ ws) = (t ≡ s) ⊎ Seen t w.state ws

  -- Every queue that it finds is open and full.
  abbrev pub AllFull : ℕ → WriteQueueState E G → List (Wake E G) → Type 0
  AllFull capacity s [] = (s.accepting ≡ true) × (capacity ≤ length s.jobs)
  AllFull capacity s (w ∷ ws) =
      (s.accepting ≡ true) × (capacity ≤ length s.jobs) × AllFull capacity w.state ws

  -- How a submission ends, at the queue `t` that it finds last.
  pub data Outcome (capacity : ℕ) (job : WriteJob E G) (policy : WriteBackpressure)
      (t : WriteQueueState E G) : Result (Unit {0}) → WriteQueueState E G → Type 0 where
    accepted :
        t.accepting ≡ true
        → length t.jobs < capacity
        → Outcome capacity job policy t (ok tt) (record t { jobs = t.jobs ++ job ∷ [] })
    closed : t.accepting ≡ false → Outcome capacity job policy t (err connection_manager_closed) t
    full :
        policy ≡ reject
        → capacity ≤ length t.jobs
        → Outcome capacity job policy t (err write_queue_full) t
    timed_out :
        (limit : ℕ)
        → policy ≡ timeout limit
        → capacity ≤ length t.jobs
        → Outcome capacity job policy t (err write_queue_timeout) t

  abbrev pub Ends :
      ℕ
      → WriteJob E G
      → WriteBackpressure
      → WriteQueueState E G
      → List (Wake E G)
      → Option (Result (Unit {0}) × WriteQueueState E G)
      → Type 0
  Ends capacity job policy s ws none = AllFull capacity s ws
  Ends capacity job policy s ws (some (r, u)) =
      (t : WriteQueueState E G) × Seen t s ws × Outcome capacity job policy t r u

module _ {E G : Type 0} (capacity : ℕ) (job : WriteJob E G) (policy : WriteBackpressure) where
  admit_at :
      (jobs : List (WriteJob E G)) (accepting : Bool)
      → (accepting ≡ true → length jobs < capacity)
      → let s : WriteQueueState E G = record { jobs = jobs; accepting = accepting } in
        Outcome capacity job policy s (admit job s).0 (admit job s).1
  unfolding admit
  admit_at jobs true h = accepted refl (h refl)
  admit_at jobs false h = closed refl

  Seen-self : (s : WriteQueueState E G) (ws : List (Wake E G)) → Seen s s ws
  Seen-self s [] = refl
  Seen-self s (w ∷ ws) = inl refl

  -- The test fails, and the job is let in or turned away here.
  now-Ends :
      (s : WriteQueueState E G) (ws : List (Wake E G))
      → (s.accepting && is_full capacity s) ≡ false
      → Ends capacity job policy s ws (some (admit job s))
  now-Ends s ws h = (s, Seen-self s ws, admit_at s.jobs s.accepting (λ a. ground arith))

  -- The test holds, and all is as from the next wake-up on.
  later-Ends :
      (s : WriteQueueState E G) (w : Wake E G) (ws : List (Wake E G))
      (r : Option (Result (Unit {0}) × WriteQueueState E G))
      → (s.accepting && is_full capacity s) ≡ true
      → Ends capacity job policy w.state ws r
      → Ends capacity job policy s (w ∷ ws) r
  later-Ends s w ws none h e = (ground arith, ground arith, e)
  later-Ends s w ws (some (r, u)) h (t, seen, out) = (t, inr seen, out)

  if-Ends :
      (s : WriteQueueState E G) (ws : List (Wake E G)) (test : Bool)
      (x y : Option (Result (Unit {0}) × WriteQueueState E G))
      → (test ≡ true → Ends capacity job policy s ws x)
      → (test ≡ false → Ends capacity job policy s ws y)
      → Ends capacity job policy s ws (if test then x else y)
  if-Ends s ws true x y f g = f refl
  if-Ends s ws false x y f g = g refl

  push_waiting-Ends :
      (s : WriteQueueState E G) (ws : List (Wake E G))
      → Ends capacity job policy s ws (push_waiting capacity job s ws)
  unfolding push_waiting
  push_waiting-Ends s [] =
      if-Ends s [] (s.accepting && is_full capacity s) none (some (admit job s))
        (λ h. (ground arith, ground arith)) (now-Ends s [])
  push_waiting-Ends s (w ∷ ws) =
      if-Ends s (w ∷ ws) (s.accepting && is_full capacity s) (push_waiting capacity job w.state ws)
        (some (admit job s)) (λ h. later-Ends s w ws _ h (push_waiting-Ends w.state ws))
        (now-Ends s (w ∷ ws))

  push_timed-Ends :
      (limit : ℕ)
      → policy ≡ timeout limit
      → (s : WriteQueueState E G) (ws : List (Wake E G))
      → Ends capacity job policy s ws (push_timed capacity job limit s ws)
  unfolding push_timed
  push_timed-Ends limit p s [] =
      if-Ends s [] (s.accepting && is_full capacity s) none (some (admit job s))
        (λ h. (ground arith, ground arith)) (now-Ends s [])
  push_timed-Ends limit p s (w ∷ ws) =
      if-Ends s (w ∷ ws) (not (s.accepting && is_full capacity s)) (some (admit job s)) _
        (λ h. now-Ends s (w ∷ ws) (ground arith))
        λ h.
          if-Ends s (w ∷ ws) (ltb (length w.state.jobs) capacity) (some (admit job w.state)) _
            (λ room.
              later-Ends s w ws (some (admit job w.state)) (ground arith)
                (now-Ends w.state ws (ground arith)))
            λ crowded.
              if-Ends s (w ∷ ws) (w.timed_out || leb limit w.elapsed)
                (some (err write_queue_timeout, w.state)) _
                (λ late. (w.state, inr (Seen-self w.state ws), timed_out limit p (ground arith)))
                λ early. later-Ends s w ws _ (ground arith) (push_timed-Ends limit p w.state ws)

reject-Ends :
    {E G : Type 0} (capacity : ℕ) (job : WriteJob E G) (s : WriteQueueState E G)
    (ws : List (Wake E G)) (test : Bool)
    → is_full capacity s ≡ test
    → Ends capacity job reject s ws (some (if test then (err write_queue_full, s) else admit job s))
reject-Ends capacity job s ws true h =
    (s, Seen-self capacity job reject s ws, full refl (ground arith))
reject-Ends capacity job s ws false h = now-Ends capacity job reject s ws (ground arith)

-- A submission, under every policy and whatever the queue is at its wake-ups, ends at a queue `t`
-- that it found in one of four ways: its job goes to the back of `t`, which is open and has room; `t`
-- is closed and stays as it is; under Reject, `t` is full and stays; under Timeout, `t` is full and
-- stays. It still waits only if every queue that it found was open and full.
pub push_outcome :
    {E G : Type 0} (capacity : ℕ) (job : WriteJob E G) (policy : WriteBackpressure)
    (s : WriteQueueState E G) (ws : List (Wake E G))
    → Ends capacity job policy s ws (push capacity job policy s ws)
unfolding push
push_outcome capacity job wait s ws = push_waiting-Ends capacity job wait s ws
push_outcome capacity job reject s ws = reject-Ends capacity job s ws (is_full capacity s) refl
push_outcome capacity job (timeout limit) s ws =
    push_timed-Ends capacity job (timeout limit) limit refl s ws
