-- ===== src/Pool/Readers.antt =====
-- crates/csgdb/src/pool.rs, `ReadPool` and `ReadLease`: a stack of idle read connections under one
-- lock. A list of connections has the end of the source's vector at its head. The counters are
-- atomics that wrap; `counts` reads one of them when it has released the lock, the others are read and
-- written while it is held.
pub mod Leases
pub mod System
mod Examples
use mathlib.Core.List.{reverse}
use csgdb.Prelude.{ℕ, fetch_add, fetch_sub, List, [], ◌∷◌, Option, none, some, length}
use csgdb.Core.Error.{Result, ok, err, read_pool_exhausted}

pub record ReadPool (Conn : Type 0) : Type 0 where
  pub capacity : ℕ
  pub connections : List Conn
  pub active : ℕ
  pub rejected_checkouts : ℕ

module _ {Conn : Type 0} where
  unfoldable pub new : List Conn → ReadPool Conn
  new connections = record {
    capacity = length connections;
    connections = connections;
    active = 0;
    rejected_checkouts = 0;
  }

  -- `connections.pop()`, counted.
  abbrev take : ReadPool Conn → List Conn → Option (Conn × ReadPool Conn)
  take p [] = none
  take p (database ∷ rest) =
      some (database, record p { connections = rest; active = fetch_add p.active 1 })

  -- One turn of the loop of `checkout`; `none` waits for `available`.
  unfoldable pub checkout_turn : ReadPool Conn → Option (Conn × ReadPool Conn)
  checkout_turn p = take p p.connections

  -- `checkout`. The list holds the pool as each wake-up finds it; `none` is still waiting.
  pub checkout : ReadPool Conn → List (ReadPool Conn) → Option (Conn × ReadPool Conn)
  checkout p [] = checkout_turn p
  checkout p (woken ∷ later) =
      let rest = checkout woken later in
      elim (checkout_turn p) [ none ↦ rest | some leased ↦ some leased ]

  abbrev try_take : ReadPool Conn → Option (Conn × ReadPool Conn) → Result Conn × ReadPool Conn
  try_take p none =
      (err read_pool_exhausted, record p { rejected_checkouts = fetch_add p.rejected_checkouts 1 })
  try_take p (some (database, q)) = (ok database, q)

  unfoldable pub try_checkout : ReadPool Conn → Result Conn × ReadPool Conn
  try_checkout p = try_take p (take p p.connections)

  -- `ReadLease::drop`
  unfoldable pub drop_lease : Conn → ReadPool Conn → ReadPool Conn
  drop_lease database p = record p {
    connections = database ∷ p.connections;
    active = fetch_sub p.active 1;
  }

  -- `counts`: the pool as it is under the lock, and as it is at the load of `active`, when the lock is
  -- no longer held.
  pub counts : ReadPool Conn → ReadPool Conn → ℕ × ℕ
  counts locked later = (length locked.connections, later.active)

  -- The loop of `close_connections` over the drained vector, from its front.
  drain : (Conn → Result (Unit {0})) → List Conn → Result (Unit {0}) → Result (Unit {0})
  drain close [] result = result
  drain close (database ∷ rest) result =
      drain close rest (elim result [ err e ↦ err e | ok _ ↦ close database ])

  pub close_connections :
      (Conn → Result (Unit {0})) → ReadPool Conn → Result (Unit {0}) × ReadPool Conn
  unfolding drain
  close_connections close p =
      (drain close (reverse p.connections) (ok tt), record p { connections = [] })
