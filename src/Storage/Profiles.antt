-- ===== src/Storage/Profiles.antt =====
-- crates/csgdb-storage/src/lib.rs, `open_with_access`: which profile a connection is opened under.
use csgdb.Prelude.{ℕ, ◌≡◌, refl, subst, ap, ◌⊎◌, inl, inr, Bool, true, false}
use csgdb.Core.Error.{ErrorCode, Result, ok, err, ok_inj}
use csgdb.Core.Open.{SecurityMode, ResolvedOpenPlan}
use csgdb.Storage.Flags.{ConnectionAccess, ConnectionOwner, SqlOpenFlags, opened_flags}
use csgdb.Storage.Errors.{map_storage_error}
use csgdb.Storage.{
  Sqlite, CipherProfile, current, previous, legacy, checked_legacy, checked_previous,
  checked_current, open_engine_connection, apply_key_with_profile, verify_database, open_legacy,
  open_previous, open_encrypted, open_with_access, verified, verified_by, set_up, mapped,
  configure_connection,
}
use csgdb.Storage.Opened.{go_on-ok, Opened, OpenedAs, Opened-calls}

module _ (q : Sqlite) where
  open q use {W, Conn, has_data}

  -- Under the current profile from the start, or under an old one if the file had data.
  record Found (plan : ResolvedOpenPlan) (flags : SqlOpenFlags) (candidate : Bool) (conn : Conn)
      (w w' : W) : Type 0 where
    profile : CipherProfile
    from : W
    opened : Opened q plan flags profile conn from w'
    which : ((profile ≡ current) × (from ≡ w)) ⊎ (candidate ≡ true)

  module _ (plan : ResolvedOpenPlan) (flags : SqlOpenFlags) where
    checked_legacy-Opened :
        (e : ErrorCode) (at conn : Conn) (w w₁ w₂ w' : W) (r : Result (Unit {0}) × W)
        → open_engine_connection q plan flags w ≡ (ok at, w₁)
        → apply_key_with_profile q plan legacy at w₁ ≡ (ok tt, w₂)
        → verify_database q at w₂ ≡ r
        → checked_legacy q e at r ≡ (ok conn, w')
        → Opened q plan flags legacy conn w w'
    checked_legacy-Opened e at conn w w₁ w₂ w' (ok _, w₃) o k v h = record {
      w_open = w₁;
      w_keyed = w₂;
      opening = cc;
      keying = cc;
      reading = cc;
    }
    checked_legacy-Opened e at conn w w₁ w₂ w' (err x, w₃) o k v h = cc

    open_legacy-Opened :
        (e : ErrorCode) (conn : Conn) (w w' : W)
        → open_legacy q plan flags e w ≡ (ok conn, w')
        → Opened q plan flags legacy conn w w'
    unfolding open_legacy
    open_legacy-Opened e conn w w' h =
        let (at, w₁, o, h₁) = go_on-ok q (open_engine_connection q plan flags w) _ conn w' h in
        let (u, w₂, k, h₂) = go_on-ok q (apply_key_with_profile q plan legacy at w₁) _ conn w' h₁ in
        checked_legacy-Opened e at conn w w₁ w₂ w' (verify_database q at w₂) o k refl h₂

    checked_previous-Found :
        (e : ErrorCode) (at conn : Conn) (start w w₁ w₂ w' : W) (r : Result (Unit {0}) × W)
        → open_engine_connection q plan flags w ≡ (ok at, w₁)
        → apply_key_with_profile q plan previous at w₁ ≡ (ok tt, w₂)
        → verify_database q at w₂ ≡ r
        → checked_previous q plan flags e at r ≡ (ok conn, w')
        → Found plan flags true conn start w'
    checked_previous-Found e at conn start w w₁ w₂ w' (ok _, w₃) o k v h = record {
      profile = previous;
      from = w;
      opened = record { w_open = w₁; w_keyed = w₂; opening = cc; keying = cc; reading = cc };
      which = inr refl;
    }
    checked_previous-Found e at conn start w w₁ w₂ w' (err x, w₃) o k v h = record {
      profile = legacy;
      from = w₃;
      opened = open_legacy-Opened e conn w₃ w' h;
      which = inr refl;
    }

    open_previous-Found :
        (e : ErrorCode) (conn : Conn) (start w w' : W)
        → open_previous q plan flags e w ≡ (ok conn, w')
        → Found plan flags true conn start w'
    unfolding open_previous
    open_previous-Found e conn start w w' h =
        let (at, w₁, o, h₁) = go_on-ok q (open_engine_connection q plan flags w) _ conn w' h in
        let (u, w₂, k, h₂) =
          go_on-ok q (apply_key_with_profile q plan previous at w₁) _ conn w' h₁ in
        checked_previous-Found e at conn start w w₁ w₂ w' (verify_database q at w₂) o k refl h₂

    checked_current-Found :
        (candidate : Bool) (at conn : Conn) (w w₁ w₂ w' : W) (r : Result (Unit {0}) × W)
        → open_engine_connection q plan flags w ≡ (ok at, w₁)
        → apply_key_with_profile q plan current at w₁ ≡ (ok tt, w₂)
        → verify_database q at w₂ ≡ r
        → checked_current q plan flags candidate at r ≡ (ok conn, w')
        → Found plan flags candidate conn w w'
    checked_current-Found candidate at conn w w₁ w₂ w' (ok _, w₃) o k v h = record {
      profile = current;
      from = w;
      opened = record { w_open = w₁; w_keyed = w₂; opening = cc; keying = cc; reading = cc };
      which = inl (refl, refl);
    }
    checked_current-Found true at conn w w₁ w₂ w' (err x, w₃) o k v h =
        open_previous-Found x conn w w₃ w' h
    checked_current-Found false at conn w w₁ w₂ w' (err x, w₃) o k v h = cc

    open_encrypted-Found :
        (candidate : Bool) (at conn : Conn) (w w₁ w' : W)
        → open_engine_connection q plan flags w ≡ (ok at, w₁)
        → open_encrypted q plan flags candidate at w₁ ≡ (ok conn, w')
        → Found plan flags candidate conn w w'
    unfolding open_encrypted
    open_encrypted-Found candidate at conn w w₁ w' o h =
        let (u, w₂, k, h₁) = go_on-ok q (apply_key_with_profile q plan current at w₁) _ conn w' h in
        checked_current-Found candidate at conn w w₁ w₂ w' (verify_database q at w₂) o k refl h₁

  set_up-same :
      (plan : ResolvedOpenPlan) (access : ConnectionAccess) (cache : ℕ) (at conn : Conn) (w w' : W)
      → set_up q plan access cache at w ≡ (ok conn, w')
      → at ≡ conn
  unfolding set_up
  set_up-same plan access cache at conn w w' h =
      let (u, w₁, _, h₁) =
        go_on-ok q (mapped q map_storage_error (q.busy_timeout plan.busy_timeout at w)) _ conn w'
          h in
      let (v, w₂, _, h₂) =
        go_on-ok q (configure_connection q plan access cache at w₁) _ conn w' h₁ in
      ok_inj at conn (ap (λ p. p.0) h₂)

  -- The connection that an open of an encrypted plan gives: opened and keyed by the calls above under
  -- some profile, an old one only if the file had data, and then set up, with nothing between.
  pub record Verified (plan : ResolvedOpenPlan) (access : ConnectionAccess)
      (owner : ConnectionOwner) (cache : ℕ) (conn : Conn) (w w' : W) : Type 0 where
    pub profile : CipherProfile
    pub from : W
    pub checked_at : W
    pub calls : OpenedAs q plan (opened_flags plan.flags access owner) profile conn from checked_at
    pub which : ((profile ≡ current) × (from ≡ w)) ⊎ (has_data plan.path w ≡ true)
    pub rest : set_up q plan access cache conn checked_at ≡ (ok conn, w')

-- An encrypted plan has a key if it opens, and the connection that it gives is one that the engine
-- opened, that took the settings of one of the three cipher profiles and then the plan's key, and on
-- which the schema was read right after; the time-out and the pragmas of the connection come after that,
-- and nothing else. An old profile is used only if the file had data when the open began.
pub open_with_access-Verified :
    (q : Sqlite) (plan : ResolvedOpenPlan) (access : ConnectionAccess) (owner : ConnectionOwner)
    (cache : ℕ) (w w' : q.W) (conn : q.Conn)
    → plan.security ≡ SecurityMode.encrypted
    → open_with_access q plan access owner cache w ≡ (ok conn, w')
    → Verified q plan access owner cache conn w w'
unfolding open_with_access
open_with_access-Verified q plan access owner cache w w' conn secure h =
    let flags = opened_flags plan.flags access owner in
    let candidate = q.has_data plan.path w in
    let (at, w₁, o, h₁) = go_on-ok q (open_engine_connection q plan flags w) _ conn w' h in
    let (c, w₂, opened, h₂) = go_on-ok q (verified q plan flags candidate at w₁) _ conn w' h₁ in
    let same = set_up-same q plan access cache c conn w₂ w' h₂ in
    let encrypted =
      subst (λ s. (verified_by q plan flags candidate at s w₁) ≡ (ok c, w₂)) secure opened in
    let found =
      subst (λ x. Found q plan flags candidate x w w₂) same
        (open_encrypted-Found q plan flags candidate at c w w₁ w₂ o encrypted) in
    record {
      profile = found.profile;
      from = found.from;
      checked_at = w₂;
      calls = Opened-calls q plan flags found.profile conn found.from w₂ found.opened;
      which = found.which;
      rest = subst (λ x. set_up q plan access cache x w₂ ≡ (ok conn, w')) same h₂;
    }
