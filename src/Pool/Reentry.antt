-- ===== src/Pool/Reentry.antt =====
-- crates/csgdb/src/pool.rs, `ReadCallbackGuard` and the tests for re-entrant calls. Each thread has a
-- vector of the pools whose read callbacks it is inside of; its end is the head of the list here. A
-- pool is told by the address of its shared part.
pub mod Nesting
mod Examples
use csgdb.Prelude.{ℕ, Bool, true, false, ◌||◌, List, [], ◌∷◌, ◌==◌, if◌then◌else◌}
use csgdb.Core.Error.{Result, ok, err, reentrant_read, reentrant_write, reject_if}

-- The two thread-locals, `IN_WRITE_WORKER` and `READ_CALLBACK_POOLS`.
pub record ThreadState : Type 0 where
  pub in_writer : Bool
  pub pools : List ℕ

unfoldable pub contains : List ℕ → ℕ → Bool
contains [] pool = false
contains (p ∷ ps) pool = p == pool || contains ps pool

-- `ReadCallbackGuard::enter`
pub enter : ℕ → ThreadState → Result (Unit {0}) × ThreadState
enter pool t =
    if contains t.pools pool
    then (err reentrant_read, t)
    else (ok tt, record t { pools = pool ∷ t.pools })

-- Removes the last occurrence in the vector (`rposition`), if there is one.
remove_last : ℕ → List ℕ → List ℕ
remove_last pool [] = []
remove_last pool (p ∷ ps) = let rest = p ∷ remove_last pool ps in if p == pool then ps else rest

-- `ReadCallbackGuard::drop`
pub drop_guard : ℕ → ThreadState → ThreadState
unfolding remove_last
drop_guard pool t = record t { pools = remove_last pool t.pools }

unfoldable pub in_read_callback : ℕ → ThreadState → Bool
in_read_callback pool t = contains t.pools pool

-- The test at the head of `write_internal` and `submit_groupable`.
unfoldable pub admits_write : ℕ → ThreadState → Result (Unit {0})
unfolding in_read_callback
admits_write pool t = reject_if (t.in_writer || in_read_callback pool t) reentrant_write
