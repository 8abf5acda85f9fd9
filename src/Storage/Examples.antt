-- ===== src/Storage/Examples.antt =====
-- Opening a database that was written under the profile before the current one.
use csgdb.Prelude.{ℕ, ◌≡◌, refl, true, none, some, Str, str, str_eq, ◌==◌, if◌then◌else◌}
use csgdb.Prelude.Int.{pos_part}
use csgdb.Core.Flags.{contains}
use csgdb.Core.Error.{ok}
use csgdb.Core.Open.{SecurityMode, ResolvedKey, ResolvedOpenPlan}
use csgdb.Storage.Errors.{FailureCode, sqlite_failure, map_open_error}
use csgdb.Storage.Flags.{read_write, single}
use csgdb.Storage.{
  Sqlite, Pragma, done, failed, open_with_access, open_engine_connection, apply_key_with_profile,
  apply_key, apply_key_bytes, set_pragma, verify_database, open_encrypted, open_previous, set_up,
  configure_connection,
}
use csgdb.Storage.Profiles.{Verified, open_with_access-Verified}

-- The page size that the engine was last told; the file was written with pages of 4096 bytes.
abbrev set_size : Str → Pragma → ℕ → ℕ
set_size name (Pragma.word s) w = w
set_size name (Pragma.flag b) w = w
set_size name (Pragma.number n) w =
    if str_eq name (str "cipher_default_page_size") then pos_part n else w

abbrev old_file : Sqlite
old_file = record {
  W = ℕ;
  Conn = Unit {0};
  has_data = λ path w. true;
  open_with_flags = λ path vfs flags w. (done tt, w);
  pragma_update = λ name value conn w. (done tt, set_size name value w);
  key = λ bytes conn w. (0, w);
  count_schema = λ conn w.
      if w == 4096
      then (done tt, w)
      else (failed (sqlite_failure FailureCode.not_a_database 26), w);
  busy_timeout = λ limit conn w. (done tt, w);
}

abbrev plan : ResolvedOpenPlan
plan = record {
  path = str "memory.db";
  flags = 0x26;
  security = SecurityMode.encrypted;
  busy_timeout = 0;
  cache_size_bytes = 4096;
  memory_budget_bytes = 8192;
  vfs = none;
  key = some (ResolvedKey.passphrase (record { bytes = str "secret" }));
}

opens : open_with_access old_file plan read_write single 4096 0 ≡ (ok tt, 4096)
unfolding open_with_access open_engine_connection apply_key_with_profile apply_key apply_key_bytes
    set_pragma verify_database map_open_error open_encrypted open_previous set_up
    configure_connection contains str_eq
opens = refl

open_with_access-Verified_example : Verified old_file plan read_write single 4096 tt 0 4096
open_with_access-Verified_example =
    open_with_access-Verified old_file plan read_write single 4096 0 4096 tt refl opens
