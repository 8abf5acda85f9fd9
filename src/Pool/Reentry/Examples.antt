-- ===== src/Pool/Reentry/Examples.antt =====
-- A thread inside of callbacks of two pools.
use csgdb.Prelude.{ℕ, true, false, ◌≡◌, refl, ◌↔◌, ◌⊎◌, List, [], ◌∷◌, arith}
use csgdb.Core.Error.{ok, err, reentrant_read, reentrant_write}
use csgdb.Pool.Reentry.{ThreadState, enter, drop_guard, admits_write}
use csgdb.Pool.Reentry.Nesting.{Among, enter_exclusive}

abbrev thread : List ℕ → ThreadState
thread pools = record { in_writer = false; pools = pools }

writer_refused : admits_write 5 (record { in_writer = true; pools = [] }) ≡ err reentrant_write
unfolding admits_write
writer_refused = refl

-- Pool 5 inside of pools 4 and 3, the outer one.
enter_exclusive_example :
    let t = thread (4 ∷ 3 ∷ []) in
    let inside = (enter 5 t).1 in
    (Among 5 (4 ∷ 3 ∷ []) × (enter 5 t ≡ (err reentrant_read, t)))
    ⊎ (¬ Among 5 (4 ∷ 3 ∷ [])
        × (((enter 5 t).0 ≡ ok tt)
            × (Among 3 inside.pools ↔ Among 3 (4 ∷ 3 ∷ []))
            × ((enter 5 inside).0 ≡ err reentrant_read)
            × (admits_write 5 inside ≡ err reentrant_write)
            × (admits_write 3 inside ≡ admits_write 3 t)
            × (drop_guard 5 inside ≡ t)))
enter_exclusive_example = enter_exclusive 5 3 (thread (4 ∷ 3 ∷ [])) (λ e. absurd (omega arith))
