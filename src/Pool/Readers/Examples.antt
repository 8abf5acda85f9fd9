-- ===== src/Pool/Readers/Examples.antt =====
-- A pool of two readers: both are leased, a third checkout is refused, and a lease comes back.
use mathlib.Core.List.{Perm, Nodup, Nodup-cons, Nodup-nil, not-mem-nil}
use csgdb.Prelude.{
  fetch_add, ℕ, ◌+◌, ◌≤◌, ◌≡◌, refl, List, [], ◌∷◌, ◌++◌, length, arith, ltb, ◌==◌, if◌then◌else◌,
}
use csgdb.Core.Error.{Result, ok, err, read_pool_exhausted, storage, database_busy}
use csgdb.Pool.Readers.{
  ReadPool, new, checkout_turn, try_checkout, drop_lease, counts, close_connections,
}
use csgdb.Pool.Readers.System.{System, start, Reach, here, next, checked_out, refused, dropped}
use csgdb.Pool.Readers.Leases.{Reach-counts, Reach-Nodup, try_checkout-refused}

abbrev pool : List ℕ → ℕ → ℕ → ReadPool ℕ
pool idle active rejected = record {
  capacity = 1;
  connections = idle;
  active = active;
  rejected_checkouts = rejected;
}

abbrev busy : System ℕ
busy = record { pool = pool [] 1 1; held = 7 ∷ [] }

history : Reach (start (7 ∷ [])) busy
unfolding start new checkout_turn try_checkout fetch_add
history =
    next (next here (checked_out (pool (7 ∷ []) 0 0) (pool [] 1 0) [] 7 refl))
      (refused (pool [] 1 0) (pool [] 1 1) (7 ∷ []) read_pool_exhausted refl)

abbrev idle_again : System ℕ
idle_again = record { pool = drop_lease 7 (pool [] 1 1); held = [] }

back : Reach (start (7 ∷ [])) idle_again
back = next history (dropped (pool [] 1 1) [] [] 7)

fails_below_nine : ℕ → Result (Unit {0})
fails_below_nine c = if ltb c 8 then err storage else if c == 8 then err database_busy else ok tt

-- The front of the vector, 9, closes; 7 is the first to fail; 8 is closed too.
first_failure :
    close_connections fails_below_nine (pool (8 ∷ 7 ∷ 9 ∷ []) 0 0) ≡ (err storage, pool [] 0 0)
unfolding close_connections fails_below_nine
first_failure = refl

dropped_now : Reach busy idle_again
dropped_now = next here (dropped (pool [] 1 1) [] [] 7)

-- The lease comes back between the two reads of `counts`, and neither counts it.
Reach-counts_example :
    let (available, active) = counts busy.pool idle_again.pool in
    Perm {A = ℕ} ([] ++ 7 ∷ []) (7 ∷ [])
    × (available + 1 ≡ 1)
    × (active ≡ 0)
    × (available ≤ 1)
    × (active ≤ 1)
    × (length {A = ℕ} [] ≡ length {A = ℕ} (7 ∷ []) → available + active ≡ 1)
Reach-counts_example = Reach-counts (7 ∷ []) (omega arith) busy idle_again history dropped_now

Reach-Nodup_example : Nodup {A = ℕ} ([] ++ 7 ∷ [])
Reach-Nodup_example =
    Reach-Nodup (7 ∷ []) (omega arith) busy history (Nodup-cons.1 (not-mem-nil, Nodup-nil))

try_checkout-refused_example :
    ((try_checkout (pool [] 1 1)).0 ≡ err read_pool_exhausted
      → length {A = ℕ} (7 ∷ []) ≡ length {A = ℕ} (7 ∷ []))
    × (length {A = ℕ} (7 ∷ []) ≡ length {A = ℕ} (7 ∷ [])
        → (try_checkout (pool [] 1 1)).0 ≡ err read_pool_exhausted)
try_checkout-refused_example = try_checkout-refused (7 ∷ []) (omega arith) busy history
