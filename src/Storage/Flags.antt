-- ===== src/Storage/Flags.antt =====
-- crates/csgdb-storage/src/lib.rs: the open flags that SQLite is given. rusqlite's flag set is a record
-- of the flags that the code sets.
use csgdb.Prelude.{Bool, not, bit_and, bit_or, ◌-◌, ◌^◌, if◌then◌else◌}
use csgdb.Core.Flags.{
  OpenFlags, contains, readonly, create, uri, memory, fullmutex, nomutex, nofollow,
}

pub data ConnectionAccess : Type 0 where
  read_write read_only : ConnectionAccess

pub data ConnectionOwner : Type 0 where
  shared single : ConnectionOwner

pub record SqlOpenFlags : Type 0 where
  pub reads_only : Bool
  pub reads_and_writes : Bool
  pub creates : Bool
  pub is_uri : Bool
  pub in_memory : Bool
  pub full_mutex : Bool
  pub no_mutex : Bool
  pub no_follow : Bool

unfoldable pub sqlite_open_flags : OpenFlags → SqlOpenFlags
sqlite_open_flags f = record {
  reads_only = contains f readonly;
  reads_and_writes = not (contains f readonly);
  creates = contains f create;
  is_uri = contains f uri;
  in_memory = contains f memory;
  full_mutex = contains f fullmutex;
  no_mutex = contains f nomutex;
  no_follow = contains f nofollow;
}

abbrev retain : OpenFlags → OpenFlags → OpenFlags → OpenFlags
retain f flag kept = if contains f flag then bit_or kept flag else kept

unfoldable pub readonly_open_flags : OpenFlags → OpenFlags
readonly_open_flags f =
    retain f nofollow
      (retain f nomutex (retain f fullmutex (retain f memory (retain f uri readonly))))

-- `bits & !FULLMUTEX | NOMUTEX` of a u32.
unfoldable pub single_owner_open_flags : OpenFlags → OpenFlags
single_owner_open_flags f = bit_or (bit_and f (2 ^ 32 - 1 - fullmutex)) nomutex

abbrev pub accessed : OpenFlags → ConnectionAccess → OpenFlags
accessed f read_write = f
accessed f read_only = readonly_open_flags f

abbrev pub owned : OpenFlags → ConnectionOwner → OpenFlags
owned f shared = f
owned f single = single_owner_open_flags f

-- The flags of `open_with_access`.
abbrev pub opened_flags : OpenFlags → ConnectionAccess → ConnectionOwner → SqlOpenFlags
opened_flags f access owner = sqlite_open_flags (owned (accessed f access) owner)
