-- ===== src/Core/Connection.antt =====
-- crates/csgdb-core/src/connection.rs: what a connection reports of transactions and checkpoints.
use csgdb.Prelude.{ℕ, ◌-◌, Bool, false, not, ◌&&◌, Option, none, some, ◌==◌}

pub data TransactionState : Type 0 where
  idle read write : TransactionState

pub data CheckpointMode : Type 0 where
  passive full restart truncate : CheckpointMode

-- Frame counts are u32; `none` where the engine has no WAL to report.
pub record CheckpointResult : Type 0 where
  pub wal_frames : Option ℕ
  pub checkpointed_frames : Option ℕ
  pub busy : Bool

-- `saturating_sub` is the subtraction of the native numbers.
abbrev remaining : Option ℕ → Option ℕ → Option ℕ
remaining (some wal) (some checkpointed) = some (wal - checkpointed)
remaining _ _ = none

unfoldable pub remaining_frames : CheckpointResult → Option ℕ
remaining_frames r = remaining r.wal_frames r.checkpointed_frames

abbrev is_zero_count : Option ℕ → Bool
is_zero_count none = false
is_zero_count (some n) = n == 0

unfoldable pub is_complete : CheckpointResult → Bool
unfolding remaining_frames
is_complete r = not r.busy && is_zero_count (remaining_frames r)
