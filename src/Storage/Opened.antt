-- ===== src/Storage/Opened.antt =====
-- crates/csgdb-storage/src/lib.rs: the calls of the engine that open, key and check a connection.
use csgdb.Prelude.{
  Bool-cases, ◌==◌, ◌++◌, ◌^◌, ltb, length, Str, str, Option, none, some, arith, ℕ, ◌≡◌, refl,
  subst, inl, inr,
}
use csgdb.Prelude.Int.{pos}
use csgdb.Core.Error.{ErrorCode, Result, ok, err}
use csgdb.Core.Open.{ResolvedKey, ResolvedOpenPlan}
use csgdb.Storage.Flags.{SqlOpenFlags}
use csgdb.Storage.Errors.{SqlError, map_storage_error, map_open_error}
use csgdb.Storage.{
  hmac, page_size, hex_digits, raw_key_literal, apply_key, apply_key_bytes, set_pragma, Pragma,
  Sqlite, SqlResult, done, failed, keyed, CipherProfile, current, previous, legacy, Act, go_on,
  open_engine_connection, apply_key_with_profile, verify_database, mapped,
}

-- The settings of a profile: SQLCipher's algorithm, and the bytes of a page.
abbrev pub settings : CipherProfile → Str × ℕ
settings current = (str "HMAC_SHA256", 1024)
settings previous = (str "HMAC_SHA256", 4096)
settings legacy = (str "HMAC_SHA512", 4096)

settings_same :
    (profile : CipherProfile)
    → (hmac profile ≡ (settings profile).0) × (page_size profile ≡ (settings profile).1)
settings_same current = (refl, refl)
settings_same previous = (refl, refl)
settings_same legacy = (refl, refl)

-- What the engine gets of a key: a passphrase as it is, raw bytes as a literal in hexadecimal.
abbrev pub key_text : ResolvedKey → Str
key_text (ResolvedKey.raw secret) = str "x'" ++ (hex_digits secret.bytes ++ str "'")
key_text (ResolvedKey.passphrase secret) = secret.bytes

module _ (q : Sqlite) where
  open q use {W, Conn, has_data}

  -- What a step that went on was given.
  pub go_on-ok :
      {A B : Type 0} (r : Result A × W) (next : A → Act q B) (b : B) (w : W)
      → go_on q r next ≡ (ok b, w)
      → (a : A) × (w₁ : W) × (r ≡ (ok a, w₁)) × (next a w₁ ≡ (ok b, w))
  go_on-ok (ok a, w₁) next b w h = (a, w₁, refl, h)
  go_on-ok (err e, w₁) next b w h = cc

  -- The file was opened anew, keyed under the profile, and the schema was read, in this order and with
  -- nothing between.
  pub record Opened (plan : ResolvedOpenPlan) (flags : SqlOpenFlags) (profile : CipherProfile)
      (conn : Conn) (w w' : W) : Type 0 where
    pub w_open : W
    pub w_keyed : W
    pub opening : open_engine_connection q plan flags w ≡ (ok conn, w_open)
    pub keying : apply_key_with_profile q plan profile conn w_open ≡ (ok tt, w_keyed)
    pub reading : verify_database q conn w_keyed ≡ (ok tt, w')

  -- A call of the engine that the adapter reports as a success was one.
  mapped-done :
      {A : Type 0} (f : SqlError → ErrorCode) (r : SqlResult A × W) (a : A) (w : W)
      → mapped q f r ≡ (ok a, w)
      → r ≡ (done a, w)
  mapped-done f (done b, w₁) a w h = cc
  mapped-done f (failed e, w₁) a w h = cc

  keyed-zero : (r : ℕ × W) (w : W) → keyed q r ≡ (ok tt, w) → r ≡ (0, w)
  keyed-zero (n, w₁) w h = elim (Bool-cases (n == 0)) [
    | inl p ↦ ground (arith, p, h)
    | inr p ↦ ground (arith, p, h)
  ]

  -- The engine took this key.
  abbrev pub Takes : Option ResolvedKey → Conn → W → W → Type 0
  Takes found conn w w' =
      (secret : ResolvedKey) × (found ≡ some secret) × (q.key (key_text secret) conn w ≡ (0, w'))

  apply_key_bytes-zero :
      (bytes : Str) (conn : Conn) (w w' : W)
      → apply_key_bytes q bytes conn w ≡ (ok tt, w')
      → q.key bytes conn w ≡ (0, w')
  unfolding apply_key_bytes
  apply_key_bytes-zero bytes conn w w' h = elim (Bool-cases (ltb (length bytes) (2 ^ 31))) [
    | inl p ↦ keyed-zero (q.key bytes conn w) w' (ground (arith, p, h))
    | inr p ↦ ground (arith, p, h)
  ]

  apply_key-Takes :
      (found : Option ResolvedKey) (conn : Conn) (w w' : W)
      → apply_key q found conn w ≡ (ok tt, w')
      → Takes found conn w w'
  unfolding apply_key raw_key_literal
  apply_key-Takes none conn w w' h = cc
  apply_key-Takes (some (ResolvedKey.raw secret)) conn w w' h =
      (ResolvedKey.raw secret, refl, apply_key_bytes-zero _ conn w w' h)
  apply_key-Takes (some (ResolvedKey.passphrase secret)) conn w w' h =
      (ResolvedKey.passphrase secret, refl, apply_key_bytes-zero _ conn w w' h)

  -- The calls of the engine that open a connection under a profile, one right after another: the file,
  -- the profile's two settings, the plan's key, and a read of the schema. None of them failed.
  pub record OpenedAs (plan : ResolvedOpenPlan) (flags : SqlOpenFlags) (profile : CipherProfile)
      (conn : Conn) (w w' : W) : Type 0 where
    pub w_open : W
    pub w_hmac : W
    pub w_size : W
    pub w_keyed : W
    pub opening : q.open_with_flags plan.path plan.vfs flags w ≡ (done conn, w_open)
    pub hmac_set :
        q.pragma_update
          (str "cipher_default_hmac_algorithm")
          (Pragma.word (settings profile).0)
          conn
          w_open
        ≡ (done tt, w_hmac)
    pub size_set :
        q.pragma_update
          (str "cipher_default_page_size")
          (Pragma.number (pos (settings profile).1))
          conn
          w_hmac
        ≡ (done tt, w_size)
    pub key_taken : Takes plan.key conn w_size w_keyed
    pub schema_read : q.count_schema conn w_keyed ≡ (done tt, w')

  pub Opened-calls :
      (plan : ResolvedOpenPlan) (flags : SqlOpenFlags) (profile : CipherProfile) (conn : Conn)
      (w w' : W)
      → Opened plan flags profile conn w w'
      → OpenedAs plan flags profile conn w w'
  unfolding open_engine_connection apply_key_with_profile set_pragma verify_database
  Opened-calls plan flags profile conn w w' o =
      let hmac_name = str "cipher_default_hmac_algorithm" in
      let size_name = str "cipher_default_page_size" in
      let set_hmac = set_pragma q hmac_name (Pragma.word (hmac profile)) conn o.w_open in
      let (u, w₂, first, h₁) = go_on-ok set_hmac _ tt o.w_keyed o.keying in
      let set_size = set_pragma q size_name (Pragma.number (pos (page_size profile))) conn w₂ in
      let (v, w₃, second, h₂) = go_on-ok set_size _ tt o.w_keyed h₁ in
      let hmac_done = mapped-done map_storage_error _ tt w₂ first in
      let size_done = mapped-done map_storage_error _ tt w₃ second in
      record {
        w_open = o.w_open;
        w_hmac = w₂;
        w_size = w₃;
        w_keyed = o.w_keyed;
        opening = mapped-done map_open_error _ conn o.w_open o.opening;
        hmac_set =
            subst (λ x. q.pragma_update hmac_name (Pragma.word x) conn o.w_open ≡ (done tt, w₂))
              (settings_same profile).0 hmac_done;
        size_set =
            subst (λ x. q.pragma_update size_name (Pragma.number (pos x)) conn w₂ ≡ (done tt, w₃))
              (settings_same profile).1 size_done;
        key_taken = apply_key-Takes plan.key conn w₃ o.w_keyed h₂;
        schema_read = mapped-done map_open_error _ tt w' o.reading;
      }
