-- ===== src/Pool/Readers/System.antt =====
-- The pool together with the leases that callers hold, and what can happen to them. Each step is a
-- critical section of the lock, or the drop of a lease; any number of threads take them in any order.
use csgdb.Prelude.{List, [], ◌∷◌, ◌++◌, ◌≡◌, some}
use csgdb.Core.Error.{ErrorCode, ok, err}
use csgdb.Pool.Readers.{ReadPool, new, checkout_turn, try_checkout, drop_lease}

pub record System (Conn : Type 0) : Type 0 where
  pub pool : ReadPool Conn
  pub held : List Conn

module _ {Conn : Type 0} where
  unfoldable pub start : List Conn → System Conn
  unfolding new
  start connections = record { pool = new connections; held = [] }

  pub data Step : System Conn → System Conn → Type 0 where
    checked_out :
        (p q : ReadPool Conn) (held : List Conn) (c : Conn)
        → checkout_turn p ≡ some (c, q)
        → Step (record { pool = p; held = held }) (record { pool = q; held = c ∷ held })
    tried :
        (p q : ReadPool Conn) (held : List Conn) (c : Conn)
        → try_checkout p ≡ (ok c, q)
        → Step (record { pool = p; held = held }) (record { pool = q; held = c ∷ held })
    refused :
        (p q : ReadPool Conn) (held : List Conn) (e : ErrorCode)
        → try_checkout p ≡ (err e, q)
        → Step (record { pool = p; held = held }) (record { pool = q; held = held })
    dropped :
        (p : ReadPool Conn) (before after : List Conn) (c : Conn)
        → Step
            (record { pool = p; held = before ++ c ∷ after })
            (record { pool = drop_lease c p; held = before ++ after })

  pub data Reach (s : System Conn) : System Conn → Type 0 where
    here : Reach s s
    next : {t u : System Conn} → Reach s t → Step t u → Reach s u
