-- ===== src/Storage.antt =====
-- crates/csgdb-storage/src/lib.rs: the adapter between the library and rusqlite with SQLCipher. Those two
-- are a parameter: `W` is all that they keep, the files included, and every call returns the new one. A
-- connection that goes out of scope is closed by rusqlite, which is not written out.
pub mod Errors
pub mod Flags
pub mod Opened
pub mod Profiles
mod Examples
use csgdb.Prelude.{
  ℕ, ◌+◌, ◌*◌, ◌-◌, ◌/◌, ◌%◌, ◌^◌, min, Bool, true, false, not, ◌&&◌, ◌||◌, List, [], ◌∷◌, ◌++◌,
  Option, none, some, Str, str, length, ltb, leb, ◌==◌, if◌then◌else◌,
}
use csgdb.Prelude.Int.{ℤ, pos, negsuc}
use csgdb.Core.Error.{
  ErrorCode, Result, ok, err, key_required, invalid_key_length, encryption_backend_unavailable,
  parameter_count_mismatch, invalid_column_index, invalid_column_type, invalid_busy_timeout,
  invalid_utf8,
}
use csgdb.Core.Value.{Value}
use csgdb.Core.Flags.{contains, readonly, memory}
use csgdb.Core.Open.{SecurityMode, ResolvedKey, ResolvedOpenPlan}
use csgdb.Storage.Errors.{SqlError, map_open_error, map_storage_error}
use csgdb.Storage.Flags.{ConnectionAccess, ConnectionOwner, SqlOpenFlags, read_write, opened_flags}

pub data SqlResult (A : Type 0) : Type 0 where
  done : A → SqlResult A
  failed : SqlError → SqlResult A

-- The value of a pragma.
pub data Pragma : Type 0 where
  word : Str → Pragma
  number : ℤ → Pragma
  flag : Bool → Pragma

pub record Sqlite : Type 1 where
  pub W : Type 0
  pub Conn : Type 0
  pub has_data : Str → W → Bool
  pub open_with_flags : Str → Option Str → SqlOpenFlags → W → SqlResult Conn × W
  pub pragma_update : Str → Pragma → Conn → W → SqlResult (Unit {0}) × W
  pub key : Str → Conn → W → ℕ × W
  pub count_schema : Conn → W → SqlResult (Unit {0}) × W
  pub busy_timeout : ℕ → Conn → W → SqlResult (Unit {0}) × W

pub data CipherProfile : Type 0 where
  current previous legacy : CipherProfile

-- The parameters of a profile: the HMAC and the page size.
abbrev pub hmac : CipherProfile → Str
hmac current = str "HMAC_SHA256"
hmac previous = str "HMAC_SHA256"
hmac legacy = str "HMAC_SHA512"

abbrev pub page_size : CipherProfile → ℕ
page_size current = 1024
page_size previous = 4096
page_size legacy = 4096

abbrev hex_digit : ℕ → ℕ
hex_digit n = if ltb n 10 then 48 + n else 87 + n

abbrev hex_digits : Str → Str
hex_digits [] = []
hex_digits (byte ∷ rest) = hex_digit (byte / 16) ∷ hex_digit (byte % 16) ∷ hex_digits rest

-- The literal `x'…'` of a raw key.
unfoldable pub raw_key_literal : Str → Str
raw_key_literal raw = str "x'" ++ (hex_digits raw ++ str "'")

module _ (q : Sqlite) where
  open q use {W, Conn, has_data, open_with_flags, pragma_update, key, count_schema, busy_timeout}

  -- What may fail, and changes `W`.
  abbrev pub Act : Type 0 → Type 0
  Act A = W → Result A × W

  abbrev pub mapped : {A : Type 0} → (SqlError → ErrorCode) → SqlResult A × W → Result A × W
  mapped map_error (done value, w) = (ok value, w)
  mapped map_error (failed e, w) = (err (map_error e), w)

  abbrev pub go_on : {A B : Type 0} → Result A × W → (A → Act B) → Result B × W
  go_on (ok value, w) next = next value w
  go_on (err e, w) next = (err e, w)

  abbrev pub and_then : {A B : Type 0} → Act A → (A → Act B) → Act B
  and_then act next w = go_on (act w) next

  unfoldable pub set_pragma : Str → Pragma → Conn → Act (Unit {0})
  set_pragma name value conn w = mapped map_storage_error (pragma_update name value conn w)

  unfoldable pub open_engine_connection : ResolvedOpenPlan → SqlOpenFlags → Act Conn
  open_engine_connection plan flags w =
      mapped map_open_error (open_with_flags plan.path plan.vfs flags w)

  abbrev pub keyed : ℕ × W → Result (Unit {0}) × W
  keyed (result, w) = (if result == 0 then ok tt else err encryption_backend_unavailable, w)

  unfoldable pub apply_key_bytes : Str → Conn → Act (Unit {0})
  apply_key_bytes bytes conn w =
      if ltb (length bytes) (2 ^ 31) then keyed (key bytes conn w) else (err invalid_key_length, w)

  unfoldable pub apply_key : Option ResolvedKey → Conn → Act (Unit {0})
  apply_key none conn w = (err key_required, w)
  apply_key (some (ResolvedKey.raw secret)) conn w =
      apply_key_bytes (raw_key_literal secret.bytes) conn w
  apply_key (some (ResolvedKey.passphrase secret)) conn w = apply_key_bytes secret.bytes conn w

  unfoldable pub apply_key_with_profile : ResolvedOpenPlan → CipherProfile → Conn → Act (Unit {0})
  apply_key_with_profile plan profile conn =
      and_then (set_pragma (str "cipher_default_hmac_algorithm") (Pragma.word (hmac profile)) conn)
        λ hmac_set.
          and_then
            (set_pragma (str "cipher_default_page_size") (Pragma.number (pos (page_size profile)))
              conn)
            λ size_set. apply_key plan.key conn

  unfoldable pub verify_database : Conn → Act (Unit {0})
  verify_database conn w = mapped map_open_error (count_schema conn w)

  -- The last attempt; an error of the check is the first attempt's.
  abbrev pub checked_legacy : ErrorCode → Conn → Result (Unit {0}) × W → Result Conn × W
  checked_legacy primary_error conn (ok _, w) = (ok conn, w)
  checked_legacy primary_error conn (err e, w) = (err primary_error, w)

  unfoldable pub open_legacy : ResolvedOpenPlan → SqlOpenFlags → ErrorCode → Act Conn
  open_legacy plan flags primary_error = and_then (open_engine_connection plan flags) λ conn.
      and_then (apply_key_with_profile plan legacy conn)
        λ keyed_now w. checked_legacy primary_error conn (verify_database conn w)

  abbrev pub checked_previous :
      ResolvedOpenPlan → SqlOpenFlags → ErrorCode → Conn → Result (Unit {0}) × W → Result Conn × W
  checked_previous plan flags primary_error conn (ok _, w) = (ok conn, w)
  checked_previous plan flags primary_error conn (err e, w) = open_legacy plan flags primary_error w

  unfoldable pub open_previous : ResolvedOpenPlan → SqlOpenFlags → ErrorCode → Act Conn
  open_previous plan flags primary_error = and_then (open_engine_connection plan flags) λ conn.
      and_then (apply_key_with_profile plan previous conn)
        λ keyed_now w. checked_previous plan flags primary_error conn (verify_database conn w)

  abbrev pub checked_current :
      ResolvedOpenPlan → SqlOpenFlags → Bool → Conn → Result (Unit {0}) × W → Result Conn × W
  checked_current plan flags legacy_candidate conn (ok _, w) = (ok conn, w)
  checked_current plan flags legacy_candidate conn (err e, w) =
      if legacy_candidate then open_previous plan flags e w else (err e, w)

  unfoldable pub open_encrypted : ResolvedOpenPlan → SqlOpenFlags → Bool → Conn → Act Conn
  open_encrypted plan flags legacy_candidate conn =
      and_then (apply_key_with_profile plan current conn)
        λ keyed_now w. checked_current plan flags legacy_candidate conn (verify_database conn w)

  unfoldable pub open_plaintext : Conn → Act Conn
  open_plaintext conn = and_then (verify_database conn) λ passed w. (ok conn, w)

  -- The largest i64.
  abbrev i64_max : ℕ
  i64_max = 2 ^ 63 - 1

  -- The cache in KiB, rounded up, as SQLite wants it: negative.
  abbrev pub cache_kib : ℕ → ℤ
  cache_kib bytes = negate (min ((bytes + 1023) / 1024) i64_max)
    where
      negate : ℕ → ℤ
      negate ℕ.zero = pos 0
      negate (ℕ.suc n) = negsuc n

  abbrev writes : ResolvedOpenPlan → ConnectionAccess → Bool
  writes plan read_write = not (contains plan.flags readonly) && not (contains plan.flags memory)
  writes plan _ = false

  unfoldable pub configure_connection :
      ResolvedOpenPlan → ConnectionAccess → ℕ → Conn → Act (Unit {0})
  configure_connection plan access cache_size_bytes conn =
      and_then (set_pragma (str "foreign_keys") (Pragma.flag true) conn) λ keys_set.
        and_then (set_pragma (str "cache_size") (Pragma.number (cache_kib cache_size_bytes)) conn)
          λ size_set.
            if writes plan access
            then (and_then (set_pragma (str "journal_mode") (Pragma.word (str "WAL")) conn)
                λ wal_set. set_pragma (str "synchronous") (Pragma.word (str "NORMAL")) conn)
            else (λ w. (ok tt, w))

  abbrev pub verified_by : ResolvedOpenPlan → SqlOpenFlags → Bool → Conn → SecurityMode → Act Conn
  verified_by plan flags legacy_candidate conn SecurityMode.encrypted =
      open_encrypted plan flags legacy_candidate conn
  verified_by plan flags legacy_candidate conn SecurityMode.plaintext = open_plaintext conn

  abbrev pub verified : ResolvedOpenPlan → SqlOpenFlags → Bool → Conn → Act Conn
  verified plan flags legacy_candidate conn =
      verified_by plan flags legacy_candidate conn plan.security

  -- The end of `open_with_access`, on the connection that is verified.
  unfoldable pub set_up : ResolvedOpenPlan → ConnectionAccess → ℕ → Conn → Act Conn
  set_up plan access cache_size_bytes conn =
      and_then (λ w. mapped map_storage_error (busy_timeout plan.busy_timeout conn w))
        λ timeout_set.
          and_then (configure_connection plan access cache_size_bytes conn)
            λ configured w. (ok conn, w)

  unfoldable pub open_with_access :
      ResolvedOpenPlan → ConnectionAccess → ConnectionOwner → ℕ → Act Conn
  open_with_access plan access owner cache_size_bytes w =
      let flags = opened_flags plan.flags access owner in
      let candidate = has_data plan.path w in
      and_then (open_engine_connection plan flags)
        (λ opened.
          and_then (verified plan flags candidate opened) (set_up plan access cache_size_bytes))
        w
