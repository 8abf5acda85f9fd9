-- ===== src/Core/Key.antt =====
-- crates/csgdb-core/src/key.rs: secrets, the identity of a database, and where its key comes from.
use csgdb.Prelude.{ℕ, Bool, Option, Str, length, ◌==◌, not}
use csgdb.Core.Error.{Result, ok, invalid_key_length, invalid_path, reject_if, ◌>>◌}

abbrev pub raw_key_length : ℕ
raw_key_length = 32

abbrev pub is_empty : Str → Bool
is_empty s = length s == 0

pub record SecretKey : Type 0 where
  pub bytes : Str

-- `SecretKey::from_slice`
unfoldable pub from_slice : Str → Result SecretKey
from_slice bytes = do
  reject_if (not (length bytes == raw_key_length)) invalid_key_length
  ok (record { bytes = bytes })

pub record SecretString : Type 0 where
  pub bytes : Str

-- A path is the bytes of its `OsStr`.
pub record DatabaseIdentity : Type 0 where
  pub path : Str

-- `DatabaseIdentity::from_path`
unfoldable pub from_path : Str → Result DatabaseIdentity
from_path path = do reject_if (is_empty path) invalid_path; ok (record { path = path })

-- The host's key store behind the `KeyProvider` trait. `W` is the host's state: a call may read and
-- change it, and nothing is assumed of what the calls do.
pub record KeyProvider (W : Type 0) : Type 0 where
  pub load : DatabaseIdentity → W → Result (Option SecretKey) × W
  pub create : DatabaseIdentity → W → Result SecretKey × W
  pub remove : DatabaseIdentity → W → Result (Unit {0}) × W

pub data KeySource (W : Type 0) : Type 0 where
  auto : KeySource W
  raw : SecretKey → KeySource W
  passphrase : SecretString → KeySource W
  provider : Str → KeyProvider W → KeySource W
