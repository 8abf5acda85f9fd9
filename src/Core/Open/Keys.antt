-- ===== src/Core/Open/Keys.antt =====
-- What an open request that is let through has for its key.
use csgdb.Prelude.{
  ◌<◌, ◌≡◌, refl, Bool, true, false, not, ◌&&◌, none, Str, all_below, all_below_sound, arith, ◌||◌,
}
use mathlib.Core.Bool.{xor}
use csgdb.Core.Error.{Result, ok}
use csgdb.Core.Flags
use csgdb.Core.Flags.{OpenFlags, contains}
use csgdb.Core.Flags.Policy.{conflicting, completed, normalize_and_validate_flags-eq}
use csgdb.Core.Key.{KeyProvider, SecretKey, DatabaseIdentity}
use csgdb.Core.Open.{
  SecurityMode, OpenOptions, OpenPlan, ResolvedOpenPlan, security_of, prepare_open, resolve_key,
  load_or_create_key, has_key, resolved_with,
}

-- The defaults do not touch the choice of plaintext, and every plan names the other choice.
keeps_choice : OpenFlags → Bool
keeps_choice f =
    conflicting f
    || not (xor (contains (completed f) Flags.plaintext) (contains f Flags.plaintext))
      && xor (contains (completed f) Flags.plaintext) (contains (completed f) Flags.encrypted)

keeps_choice_table : all_below 1024 keeps_choice ≡ true
unfolding all_below keeps_choice contains xor
keeps_choice_table = refl

completed_choice :
    (f : OpenFlags)
    → f < 1024
    → conflicting f ≡ false
    → (contains (completed f) Flags.plaintext ≡ contains f Flags.plaintext)
      × (contains (completed f) Flags.encrypted ≡ not (contains f Flags.plaintext))
unfolding keeps_choice xor
completed_choice f h c = ground (arith, all_below_sound 1024 f keeps_choice h keeps_choice_table)

module _ {W : Type 0} where
  prepare_open_plan :
      (path : Str) (o : OpenOptions W) (plan : OpenPlan W)
      → o.flags < 1024
      → prepare_open path o ≡ ok plan
      → (conflicting o.flags ≡ false)
        × (plan.flags ≡ completed o.flags)
        × (plan.security ≡ security_of (completed o.flags))
  unfolding prepare_open
  prepare_open_plan path o plan h e = ground (arith, normalize_and_validate_flags-eq o.flags h)

  resolve_key_plan :
      (plan : OpenPlan W) (r : ResolvedOpenPlan) (w : W)
      → (resolve_key plan w).0 ≡ ok r
      → (r.flags ≡ plan.flags)
        × (has_key r ≡ (elim plan.security [ SecurityMode.plaintext ↦ false | _ ↦ true ]))
  unfolding resolve_key has_key
  resolve_key_plan plan r w e = ground arith

  -- A request, with whatever flags, that is prepared and resolved has a key, and the ENCRYPTED flag,
  -- exactly when the caller did not ask for PLAINTEXT: nothing falls back to plaintext, whatever
  -- the key source and the key store do.
  pub resolve_key-has_key :
      (path : Str) (o : OpenOptions W) (plan : OpenPlan W) (r : ResolvedOpenPlan) (w : W)
      → o.flags < 1024
      → prepare_open path o ≡ ok plan
      → (resolve_key plan w).0 ≡ ok r
      → (has_key r ≡ not (contains o.flags Flags.plaintext))
        × (contains r.flags Flags.encrypted ≡ not (contains o.flags Flags.plaintext))
  resolve_key-has_key path o plan r w h e k = ground (
    arith,
    prepare_open_plan path o plan h e,
    resolve_key_plan plan r w k,
    completed_choice o.flags h,
  )

  -- A plaintext plan is resolved without a call of any key store, and cannot fail.
  pub resolve_key-plaintext :
      (path : Str) (o : OpenOptions W) (plan : OpenPlan W) (w : W)
      → o.flags < 1024
      → prepare_open path o ≡ ok plan
      → contains o.flags Flags.plaintext ≡ true
      → (r : ResolvedOpenPlan) × (resolve_key plan w ≡ (ok r, w)) × (r.key ≡ none)
  unfolding resolve_key resolved_with
  resolve_key-plaintext path o plan w h e t = (
    resolved_with plan none,
    ground (arith, prepare_open_plan path o plan h e, completed_choice o.flags h),
    refl,
  )

  -- Without the CREATE flag a key is never made: the provider's `create` does not matter.
  pub load_or_create_key-no_create :
      (p : KeyProvider W) (c : DatabaseIdentity → W → Result SecretKey × W)
      (identity : DatabaseIdentity) (flags : OpenFlags) (w : W)
      → contains flags Flags.create ≡ false
      → load_or_create_key (record p { create = c }) identity flags w
        ≡ load_or_create_key p identity flags w
  unfolding load_or_create_key
  load_or_create_key-no_create p c identity flags w h = ground arith
