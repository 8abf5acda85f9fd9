-- ===== src/Collection/Registry/Migrate/Applied.antt =====
-- A migration that is reported as applied ran the application's own operation.
use csgdb.Prelude.{◌≡◌}
use csgdb.Core.Error.{ok}
use csgdb.Collection.Valid.{Valid}
use csgdb.Collection.Rows.{Transaction}
use csgdb.Collection.Registry.Indexes.{Act}
use csgdb.Collection.Registry.Migrate.{Collection}

module _ (t : Transaction) where
  open t use {Tx}

  -- The operation ran, and succeeded.
  abbrev pub Ran : Act Tx (Unit {0}) → Type 0
  Ran operation = (before : Tx) × (then : Tx) × (operation before ≡ (ok tt, then))
