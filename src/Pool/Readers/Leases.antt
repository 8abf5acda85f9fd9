-- ===== src/Pool/Readers/Leases.antt =====
-- crates/csgdb/src/pool.rs, `ReadPool`: the leases over every interleaving of the pool's steps.
use mathlib.Core.List.{Perm, Nodup, perm_middle}
use mathlib.Core.List.Perm
use csgdb.Prelude.{
  fetch_add, fetch_sub, ◌+◌, ◌≤◌, ◌<◌, ◌^◌, ◌≡◌, refl, ◌↔◌, List, ◌∷◌, ◌++◌, some, length,
  length-append, append_assoc, append-nil, arith, sym, ap, subst,
}
use csgdb.Core.Error.{ErrorCode, err, read_pool_exhausted}
use csgdb.Pool.Readers.{ReadPool, checkout_turn, try_checkout, drop_lease, counts}
use csgdb.Pool.Readers.System.{
  System, start, Step, checked_out, tried, refused, dropped, Reach, here, next,
}

module _ {Conn : Type 0} (all : List Conn) where
  pub record Inv (s : System Conn) : Type 0 where
    pub kept : Perm (s.pool.connections ++ s.held) all
    pub capacity : s.pool.capacity ≡ length all
    pub total : length s.pool.connections + length s.held ≡ length all
    pub active : s.pool.active ≡ length s.held

  taken_shape :
      (p q : ReadPool Conn) (c : Conn)
      → checkout_turn p ≡ some (c, q)
      → (p.connections ≡ c ∷ q.connections)
        × (q.capacity ≡ p.capacity)
        × (q.active ≡ fetch_add p.active 1)
  unfolding checkout_turn
  taken_shape p q c e = ground arith

  refused_shape :
      (p q : ReadPool Conn) (e : ErrorCode)
      → try_checkout p ≡ (err e, q)
      → (p.connections ≡ q.connections) × (q.capacity ≡ p.capacity) × (q.active ≡ p.active)
  unfolding try_checkout
  refused_shape p q e h = ground arith

  module _ (small : length all < 2 ^ 64) where
    taken-Inv :
        (p q : ReadPool Conn) (held : List Conn) (c : Conn)
        → (p.connections ≡ c ∷ q.connections)
          × (q.capacity ≡ p.capacity)
          × (q.active ≡ fetch_add p.active 1)
        → Inv (record { pool = p; held = held })
        → Inv (record { pool = q; held = c ∷ held })
    unfolding fetch_add
    taken-Inv p q held c e v = record {
      kept =
          Perm.trans (perm_middle q.connections held)
            (subst (λ cs. Perm (cs ++ held) all) e.0 v.kept);
      capacity = ground arith;
      total = ground (arith, ap length e.0);
      active = ground (arith, ap length e.0);
    }

    dropped-Inv :
        (p : ReadPool Conn) (before after : List Conn) (c : Conn)
        → Inv (record { pool = p; held = before ++ c ∷ after })
        → Inv (record { pool = drop_lease c p; held = before ++ after })
    unfolding drop_lease fetch_sub
    dropped-Inv p before after c v = record {
      kept =
          Perm.trans
            (Perm.symm (simp append_assoc at (perm_middle {a = c} (p.connections ++ before) after)))
            v.kept;
      capacity = v.capacity;
      total =
          omega
            (arith, v.total, length-append {0} before after, length-append {0} before (c ∷ after));
      active = omega (
        arith,
        v.total,
        v.active,
        length-append {0} before after,
        length-append {0} before (c ∷ after),
      );
    }

    Step-Inv : {s t : System Conn} → Step s t → Inv s → Inv t
    unfolding try_checkout checkout_turn
    Step-Inv (checked_out p q held c e) v = taken-Inv p q held c (taken_shape p q c e) v
    Step-Inv (tried p q held c e) v = taken-Inv p q held c (ground arith) v
    Step-Inv (refused p q held e h) v = record {
      kept = subst (λ cs. Perm (cs ++ held) all) (refused_shape p q e h).0 v.kept;
      capacity = ground (arith, refused_shape p q e h);
      total = ground (arith, refused_shape p q e h);
      active = ground (arith, refused_shape p q e h);
    }
    Step-Inv (dropped p before after c) v = dropped-Inv p before after c v

    start-Inv : Inv (start all)
    unfolding start
    start-Inv = record {
      kept = subst (λ cs. Perm cs all) (sym (append-nil all)) (Perm.refl all);
      capacity = refl;
      total = omega arith;
      active = refl;
    }

    Reach-Inv : {s : System Conn} → Reach (start all) s → Inv s
    Reach-Inv here = start-Inv
    Reach-Inv (next r st) = Step-Inv st (Reach-Inv r)

    Reach-Inv-from : {s t : System Conn} → Inv s → Reach s t → Inv t
    Reach-Inv-from v here = v
    Reach-Inv-from v (next r st) = Step-Inv st (Reach-Inv-from v r)

    -- In whatever order threads check readers out, are refused and drop their leases: the idle and
    -- the leased connections together are exactly those that the pool was opened with, fewer
    -- than 2^64. `counts` reports
    -- those idle at the moment of its lock, and those leased at a later moment, with any steps of other
    -- threads between the two; neither exceeds the pool's capacity, and they add up to it if as many
    -- connections are leased at both moments.
    pub Reach-counts :
        (s later : System Conn)
        → Reach (start all) s
        → Reach s later
        → let (available, active) = counts s.pool later.pool in
          Perm (s.pool.connections ++ s.held) all
          × (available + length s.held ≡ s.pool.capacity)
          × (active ≡ length later.held)
          × (available ≤ s.pool.capacity)
          × (active ≤ s.pool.capacity)
          × (length later.held ≡ length s.held → available + active ≡ s.pool.capacity)
    unfolding counts
    Reach-counts s later r q =
        let v = Reach-Inv r in
        let w = Reach-Inv-from v q in
        (
          v.kept,
          omega (arith, v.total, v.capacity),
          w.active,
          omega (arith, v.total, v.capacity),
          omega (arith, v.capacity, w.active, w.total),
          λ same. omega (arith, v.total, v.capacity, w.active, same),
        )

    -- Nor is a connection ever in two leases, or idle while it is leased.
    pub Reach-Nodup :
        (s : System Conn) → Reach (start all) s → Nodup all → Nodup (s.pool.connections ++ s.held)
    Reach-Nodup s r d = Perm.nodup (Perm.symm (Reach-Inv r).kept) d

    -- An immediate checkout is refused, as READ_POOL_EXHAUSTED, exactly when callers hold every
    -- connection.
    pub try_checkout-refused :
        (s : System Conn)
        → Reach (start all) s
        → ((try_checkout s.pool).0 ≡ err read_pool_exhausted) ↔ (length s.held ≡ length all)
    unfolding try_checkout
    try_checkout-refused s r =
        let t = (Reach-Inv r).total in (λ h. ground (arith, t), λ h. ground (arith, t))
