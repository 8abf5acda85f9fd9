-- ===== src/Core/Open/Examples.antt =====
-- Runs of open requests, with a key store that counts its calls.
use csgdb.Prelude.{ℕ, ◌+◌, ◌≡◌, refl, not, arith, none, some, str, replicate}
use csgdb.Core.Error.{ok, err, key_required}
use csgdb.Core.Flags
use csgdb.Core.Flags.{contains, normalize_and_validate_flags}
use csgdb.Core.Key.{SecretKey, KeyProvider, KeySource, DatabaseIdentity, from_path}
use csgdb.Core.Open.{
  OpenOptions, OpenPlan, ResolvedOpenPlan, SecurityMode, ResolvedKey, prepare_open, validate_vfs,
  resolve_key, resolve_encrypted_key, load_or_create_key, has_key,
}
use csgdb.Core.Open.Keys.{resolve_key-has_key, resolve_key-plaintext, load_or_create_key-no_create}

abbrev some_key : SecretKey
some_key = record { bytes = replicate 32 2 }

-- The state counts the loads and the creates.
abbrev empty_store : KeyProvider (ℕ × ℕ)
empty_store = record {
  load = λ identity w. (ok none, (w.0 + 1, w.1));
  create = λ identity w. (ok some_key, (w.0, w.1 + 1));
  remove = λ identity w. (ok tt, w);
}

abbrev request : ℕ → OpenOptions (ℕ × ℕ)
request flags = record {
  flags = flags;
  busy_timeout = 0;
  cache_size_bytes = 4096;
  memory_budget_bytes = 65536;
  vfs = none;
  key = KeySource.auto;
  auto_key_provider = some empty_store;
}

abbrev identity : DatabaseIdentity
identity = record { path = str "a.db" }

abbrev plan_of : ℕ → SecurityMode → OpenPlan (ℕ × ℕ)
plan_of flags security = record {
  path = str "a.db";
  identity = identity;
  flags = flags;
  security = security;
  busy_timeout = 0;
  cache_size_bytes = 4096;
  memory_budget_bytes = 65536;
  vfs = none;
  key = KeySource.auto;
  auto_key_provider = some empty_store;
}

abbrev resolved : ResolvedOpenPlan
resolved = record {
  path = str "a.db";
  flags = 0x26;
  security = SecurityMode.encrypted;
  busy_timeout = 0;
  cache_size_bytes = 4096;
  memory_budget_bytes = 65536;
  vfs = none;
  key = some (ResolvedKey.raw some_key);
}

created_key : resolve_key (plan_of 0x26 SecurityMode.encrypted) (0, 0) ≡ (ok resolved, (1, 1))
unfolding resolve_key resolve_encrypted_key load_or_create_key contains
created_key = refl

resolve_key-has_key_example :
    (has_key resolved ≡ not (contains 4 Flags.plaintext))
    × (contains 0x26 Flags.encrypted ≡ not (contains 4 Flags.plaintext))
unfolding prepare_open normalize_and_validate_flags from_path validate_vfs resolve_key
    resolve_encrypted_key load_or_create_key
resolve_key-has_key_example =
    resolve_key-has_key (str "a.db") (request 4) (plan_of 0x26 SecurityMode.encrypted) resolved
      (0, 0) (omega arith) refl refl

resolve_key-plaintext_example :
    (r : ResolvedOpenPlan) × (resolve_key (plan_of 0x46 SecurityMode.plaintext) (0, 0)
      ≡ (ok r, (0, 0)))
    × (r.key ≡ none)
unfolding prepare_open normalize_and_validate_flags from_path validate_vfs
resolve_key-plaintext_example =
    resolve_key-plaintext (str "a.db") (request 0x44) (plan_of 0x46 SecurityMode.plaintext) (0, 0)
      (omega arith) refl refl

load_or_create_key-no_create_example :
    load_or_create_key
      (record empty_store { create = λ i w. (err key_required, w) })
      identity
      0x22
      (0, 0)
    ≡ load_or_create_key empty_store identity 0x22 (0, 0)
unfolding contains
load_or_create_key-no_create_example =
    load_or_create_key-no_create empty_store (λ i w. (err key_required, w)) identity 0x22 (0, 0)
      refl
