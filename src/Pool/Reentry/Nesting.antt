-- ===== src/Pool/Reentry/Nesting.antt =====
-- crates/csgdb/src/pool.rs, `ReadCallbackGuard`: the read callbacks of a thread, inside each other.
use csgdb.Prelude.{
  ◌⊎◌, ◌↔◌, sym, subst, inl, inr, Bool-cases, true, ℕ, Bool, ◌≡◌, ◌≢◌, false, List, [], ◌∷◌, ◌==◌,
  arith, if◌then◌else◌,
}
use csgdb.Core.Error.{ok, err, reentrant_read, reentrant_write}
use csgdb.Pool.Reentry.{
  ThreadState, contains, enter, remove_last, drop_guard, in_read_callback, admits_write,
}

-- Every pool at most once.
abbrev pub Distinct : List ℕ → Type 0
Distinct [] = Unit {0}
Distinct (p ∷ ps) = (contains ps p ≡ false) × Distinct ps

contains-remove_last :
    (pool other : ℕ) (ps : List ℕ)
    → Distinct ps
    → contains (remove_last pool ps) other ≡ (if pool == other then false else contains ps other)
unfolding contains remove_last
contains-remove_last pool other [] d = ground arith
contains-remove_last pool other (p ∷ ps) d = ground (arith, contains-remove_last pool other ps d.1)

enter-Distinct : (pool : ℕ) (t : ThreadState) → Distinct t.pools → Distinct (enter pool t).1.pools
unfolding enter
enter-Distinct pool t d = ground arith

remove_last-Distinct : (pool : ℕ) (ps : List ℕ) → Distinct ps → Distinct (remove_last pool ps)
unfolding remove_last
remove_last-Distinct pool [] d = tt
remove_last-Distinct pool (p ∷ ps) d =
    ground (arith, remove_last-Distinct pool ps d.1, contains-remove_last pool p ps d.1)

drop_guard-Distinct :
    (pool : ℕ) (t : ThreadState) → Distinct t.pools → Distinct (drop_guard pool t).pools
unfolding drop_guard
drop_guard-Distinct pool t d = remove_last-Distinct pool t.pools d

-- What a thread does: it enters a read callback of a pool, or drops a guard of one.
pub data Call : Type 0 where
  enters drops : ℕ → Call

pub run : ThreadState → List Call → ThreadState
run t [] = t
run t (enters pool ∷ cs) = run (enter pool t).1 cs
run t (drops pool ∷ cs) = run (drop_guard pool t) cs

run-Distinct : (t : ThreadState) (cs : List Call) → Distinct t.pools → Distinct (run t cs).pools
unfolding run
run-Distinct t [] d = d
run-Distinct t (enters pool ∷ cs) d = run-Distinct (enter pool t).1 cs (enter-Distinct pool t d)
run-Distinct t (drops pool ∷ cs) d =
    run-Distinct (drop_guard pool t) cs (drop_guard-Distinct pool t d)

-- The pool is one of these, wherever it stands.
abbrev pub Among : ℕ → List ℕ → Type 0
Among pool [] = ⊥
Among pool (p ∷ ps) = (p ≡ pool) ⊎ Among pool ps

contains-Among : (ps : List ℕ) (pool : ℕ) → Among pool ps → contains ps pool ≡ true
unfolding contains
contains-Among [] pool m = absurd m
contains-Among (p ∷ ps) pool (inl e) = ground (arith, e)
contains-Among (p ∷ ps) pool (inr m) = ground (arith, contains-Among ps pool m)

Among-contains : (ps : List ℕ) (pool : ℕ) → contains ps pool ≡ true → Among pool ps
unfolding contains
Among-contains [] pool h = cc
Among-contains (p ∷ ps) pool h = elim (Bool-cases (p == pool)) [
  | inl e ↦ inl (ground (arith, e))
  | inr e ↦ inr (Among-contains ps pool (ground (arith, e, h)))
]

-- The thread is the writer's, or is inside a read callback of this pool.
abbrev pub Nested : ℕ → ThreadState → Type 0
Nested pool t = (t.in_writer ≡ true) ⊎ Among pool t.pools

-- A write is refused to a nested caller, and to no other.
pub admits_write-Nested :
    (pool : ℕ) (t : ThreadState)
    → (Nested pool t × (admits_write pool t ≡ err reentrant_write))
      ⊎ (¬ Nested pool t × (admits_write pool t ≡ ok tt))
unfolding admits_write in_read_callback
admits_write-Nested pool t = elim (Bool-cases t.in_writer) [
  | inl w ↦ inl (inl w, ground (arith, w))
  | inr w ↦ elim (Bool-cases (contains t.pools pool)) [
    | inl h ↦ inl (inr (Among-contains t.pools pool h), ground (arith, h))
    | inr h ↦ inr (not_nested w h, ground (arith, w, h))
  ]
]
  where
    not_nested : t.in_writer ≡ false → contains t.pools pool ≡ false → ¬ Nested pool t
    not_nested w h (inl e) = cc
    not_nested w h (inr m) = let k = contains-Among t.pools pool m in cc

entered-Among :
    (pool other : ℕ) (ps : List ℕ)
    → pool ≢ other
    → (qs : List ℕ) → qs ≡ pool ∷ ps
    → Among other qs ↔ Among other ps
entered-Among pool other ps d qs e =
    subst (λ rs. Among other rs ↔ Among other ps) (sym e) (older, λ m. inr m)
  where
    older : Among other (pool ∷ ps) → Among other ps
    older (inl same) = absurd (d same)
    older (inr m) = m

-- Whatever the thread is inside of: entering a read callback of a pool is refused, and changes nothing,
-- exactly if the thread is inside a callback of that pool, at any depth. Where it is not refused, the
-- thread is then inside that pool's callback and those of before; that pool refuses a second read and
-- every write, other pools admit a write as before; and dropping the guard gives back the thread's state.
pub enter_exclusive :
    (pool other : ℕ) (t : ThreadState)
    → pool ≢ other
    → (Among pool t.pools × (enter pool t ≡ (err reentrant_read, t)))
      ⊎ (¬ Among pool t.pools
          × (let inside = (enter pool t).1 in
              ((enter pool t).0 ≡ ok tt)
              × (Among other inside.pools ↔ Among other t.pools)
              × ((enter pool inside).0 ≡ err reentrant_read)
              × (admits_write pool inside ≡ err reentrant_write)
              × (admits_write other inside ≡ admits_write other t)
              × (drop_guard pool inside ≡ t)))
unfolding enter admits_write in_read_callback contains drop_guard remove_last
enter_exclusive pool other t d = elim (Bool-cases (contains t.pools pool)) [
  | inl h ↦ inl (Among-contains t.pools pool h, ground (arith, h))
  | inr h ↦
      let others = entered-Among pool other t.pools d (enter pool t).1.pools (ground (arith, h)) in
      inr (
        not_inside h,
        (
          ground (arith, h),
          others,
          ground (arith, h),
          ground (arith, h),
          ground (arith, h, d),
          ground (arith, h),
        ),
      )
]
  where
    not_inside : contains t.pools pool ≡ false → ¬ Among pool t.pools
    not_inside h m = let k = contains-Among t.pools pool m in cc

-- Whatever a thread did before, and in whatever order it drops its guards: after the guard of a
-- pool is dropped the thread may read that pool again, and no other pool's guard is affected.
pub drop_guard-run :
    (worker : Bool) (cs : List Call) (pool other : ℕ)
    → let t = run (record { in_writer = worker; pools = [] }) cs in
      in_read_callback other (drop_guard pool t)
      ≡ (if pool == other then false else in_read_callback other t)
unfolding drop_guard in_read_callback
drop_guard-run worker cs pool other =
    contains-remove_last pool other _
      (run-Distinct (record { in_writer = worker; pools = [] }) cs tt)
