-- ===== src/Core/Open.antt =====
-- crates/csgdb-core/src/open.rs: an open request is checked (`prepare_open`), then its key is resolved
-- (`OpenPlan::resolve_key`). Durations are in nanoseconds, sizes in bytes; `W` is the state of the
-- host's key stores, which a call of a provider may change.
pub mod Keys
mod Examples
use csgdb.Prelude.{
  has_nul, ℕ, ◌*◌, Bool, true, false, ◌||◌, List, [], ◌∷◌, Option, none, some, Str, length, ltb,
  ◌==◌, if◌then◌else◌,
}
use csgdb.Core.Error.{
  Result, ok, err, invalid_vfs, invalid_key_length, key_store_unavailable, key_required, reject_if,
  ◌>>=◌, ◌>>◌,
}
use csgdb.Core.Flags
use csgdb.Core.Flags.{OpenFlags, contains, create, normalize_and_validate_flags}
use csgdb.Core.Key.{
  SecretKey, SecretString, DatabaseIdentity, KeyProvider, KeySource, is_empty, from_path,
}

abbrev pub max_vfs_name_bytes : ℕ
max_vfs_name_bytes = 255

pub data SecurityMode : Type 0 where
  encrypted plaintext : SecurityMode

pub record OpenOptions (W : Type 0) : Type 0 where
  pub flags : OpenFlags
  pub busy_timeout : ℕ
  pub cache_size_bytes : ℕ
  pub memory_budget_bytes : ℕ
  pub vfs : Option Str
  pub key : KeySource W
  pub auto_key_provider : Option (KeyProvider W)

pub record OpenPlan (W : Type 0) : Type 0 where
  pub path : Str
  pub identity : DatabaseIdentity
  pub flags : OpenFlags
  pub security : SecurityMode
  pub busy_timeout : ℕ
  pub cache_size_bytes : ℕ
  pub memory_budget_bytes : ℕ
  pub vfs : Option Str
  pub key : KeySource W
  pub auto_key_provider : Option (KeyProvider W)

pub data ResolvedKey : Type 0 where
  raw : SecretKey → ResolvedKey
  passphrase : SecretString → ResolvedKey

pub record ResolvedOpenPlan : Type 0 where
  pub path : Str
  pub flags : OpenFlags
  pub security : SecurityMode
  pub busy_timeout : ℕ
  pub cache_size_bytes : ℕ
  pub memory_budget_bytes : ℕ
  pub vfs : Option Str
  pub key : Option ResolvedKey

pub validate_vfs : Option Str → Result (Unit {0})
validate_vfs none = ok tt
validate_vfs (some vfs) = do
  reject_if (is_empty vfs) invalid_vfs
  reject_if (ltb max_vfs_name_bytes (length vfs)) invalid_vfs
  reject_if (has_nul vfs) invalid_vfs

abbrev security_of : OpenFlags → SecurityMode
security_of f =
    if contains f Flags.plaintext then SecurityMode.plaintext else SecurityMode.encrypted

module _ {W : Type 0} where
  unfoldable pub prepare_open : Str → OpenOptions W → Result (OpenPlan W)
  prepare_open path options = do
    identity ← from_path path
    flags ← normalize_and_validate_flags options.flags
    validate_vfs options.vfs
    ok (record {
      path = path;
      identity = identity;
      flags = flags;
      security = security_of flags;
      busy_timeout = options.busy_timeout;
      cache_size_bytes = options.cache_size_bytes;
      memory_budget_bytes = options.memory_budget_bytes;
      vfs = options.vfs;
      key = options.key;
      auto_key_provider = options.auto_key_provider;
    })

  -- A missing key is made only for a request that may create the database.
  created :
      KeyProvider W
      → DatabaseIdentity
      → OpenFlags
      → Result (Option SecretKey) × W
      → Result SecretKey × W
  created provider identity flags (err e, w) = (err e, w)
  created provider identity flags (ok (some key), w) = (ok key, w)
  created provider identity flags (ok none, w) =
      if contains flags create then provider.create identity w else (err key_required, w)

  pub load_or_create_key : KeyProvider W → DatabaseIdentity → OpenFlags → W → Result SecretKey × W
  unfolding created
  load_or_create_key provider identity flags w =
      created provider identity flags (provider.load identity w)

  abbrev as_raw : Result SecretKey × W → Result ResolvedKey × W
  as_raw (r, w) = (r >>= λ key. ok (ResolvedKey.raw key), w)

  from_auto : Option (KeyProvider W) → DatabaseIdentity → OpenFlags → W → Result ResolvedKey × W
  from_auto none identity flags w = (err key_store_unavailable, w)
  from_auto (some p) identity flags w = as_raw (load_or_create_key p identity flags w)

  unfoldable pub resolve_encrypted_key :
      DatabaseIdentity
      → OpenFlags
      → KeySource W
      → Option (KeyProvider W)
      → W
      → Result ResolvedKey × W
  unfolding from_auto
  resolve_encrypted_key identity flags (KeySource.raw key) auto w = (ok (ResolvedKey.raw key), w)
  resolve_encrypted_key identity flags (KeySource.passphrase p) auto w =
      if is_empty p.bytes then (err invalid_key_length, w) else (ok (ResolvedKey.passphrase p), w)
  resolve_encrypted_key identity flags (KeySource.provider id p) auto w =
      as_raw (load_or_create_key p identity flags w)
  resolve_encrypted_key identity flags KeySource.auto auto w = from_auto auto identity flags w

  resolved_with : OpenPlan W → Option ResolvedKey → ResolvedOpenPlan
  resolved_with plan key = record {
    path = plan.path;
    flags = plan.flags;
    security = plan.security;
    busy_timeout = plan.busy_timeout;
    cache_size_bytes = plan.cache_size_bytes;
    memory_budget_bytes = plan.memory_budget_bytes;
    vfs = plan.vfs;
    key = key;
  }

  with_key : OpenPlan W → Result ResolvedKey × W → Result ResolvedOpenPlan × W
  unfolding resolved_with
  with_key plan (ok key, w) = (ok (resolved_with plan (some key)), w)
  with_key plan (err e, w) = (err e, w)

  resolve_for : OpenPlan W → SecurityMode → W → Result ResolvedOpenPlan × W
  unfolding resolved_with with_key
  resolve_for plan SecurityMode.plaintext w = (ok (resolved_with plan none), w)
  resolve_for plan SecurityMode.encrypted w =
      with_key plan
        (resolve_encrypted_key plan.identity plan.flags plan.key plan.auto_key_provider w)

  unfoldable pub resolve_key : OpenPlan W → W → Result ResolvedOpenPlan × W
  unfolding resolve_for
  resolve_key plan w = resolve_for plan plan.security w

pub has_key : ResolvedOpenPlan → Bool
has_key plan = elim plan.key [ none ↦ false | some k ↦ true ]
