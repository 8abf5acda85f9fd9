-- ===== src/Core/Flags/Policy.antt =====
-- What the flags policy lets through. There are 1024 sets of flags: each fact is checked on all.
use csgdb.Prelude.{
  ◌<◌, ◌≡◌, refl, Bool, true, false, not, ◌&&◌, ◌||◌, arith, ◌==◌, ltb, bit_or, all_below,
  all_below_sound, if◌then◌else◌,
}
use mathlib.Core.Bool.{xor}
use csgdb.Core.Error.{Result, ok, err, invalid_open_flags}
use csgdb.Core.Flags.{
  OpenFlags, contains, normalize_and_validate_flags, readonly, readwrite, create, encrypted,
  plaintext, fullmutex, nomutex,
}

-- The requests that the policy refuses.
abbrev pub conflicting : OpenFlags → Bool
conflicting f =
    contains f readonly && contains f readwrite
    || contains f create && contains f readonly
    || contains f encrypted && contains f plaintext
    || contains f fullmutex && contains f nomutex

-- The request with the two defaults added.
abbrev pub completed : OpenFlags → OpenFlags
completed f = bit_or f (
    bit_or (if contains f readonly || contains f readwrite then 0 else readwrite)
      (if contains f encrypted || contains f plaintext then 0 else encrypted))

abbrev agrees : Result OpenFlags → Bool → OpenFlags → Bool
agrees (ok g) c e = not c && (g == e)
agrees (err invalid_open_flags) c e = c
agrees (err _) c e = false

agrees_sound :
    (r : Result OpenFlags) (c : Bool) (e : OpenFlags)
    → agrees r c e ≡ true
    → r ≡ (if c then err invalid_open_flags else ok e)
agrees_sound (ok g) true e h = cc
agrees_sound (ok g) false e h = ground arith
agrees_sound (err invalid_open_flags) true e h = refl
agrees_sound (err invalid_open_flags) false e h = cc
agrees_sound (err _) c e h = cc

agrees_table :
    all_below 1024 (λ f. agrees (normalize_and_validate_flags f) (conflicting f) (completed f))
    ≡ true
unfolding all_below normalize_and_validate_flags
agrees_table = refl

-- For every set of flags: the policy refuses exactly the conflicting requests (READONLY with
-- READWRITE or CREATE, ENCRYPTED with PLAINTEXT, FULLMUTEX with NOMUTEX), as INVALID_OPEN_FLAGS, and
-- answers any other with the request itself plus READWRITE if no access was named and ENCRYPTED if
-- no security was named.
pub normalize_and_validate_flags-eq :
    (f : OpenFlags)
    → f < 1024
    → normalize_and_validate_flags f
      ≡ (if conflicting f then err invalid_open_flags else ok (completed f))
normalize_and_validate_flags-eq f h = agrees_sound _ _ _ (all_below_sound 1024 f _ h agrees_table)

-- The state of an accepted request: one access, one security, and nothing for a second pass to do.
abbrev pub settled : OpenFlags → Bool
settled g =
    xor (contains g readonly) (contains g readwrite)
    && xor (contains g encrypted) (contains g plaintext)
    && not (contains g create && contains g readonly)
    && not (contains g fullmutex && contains g nomutex)
    && not (conflicting g)
    && (completed g == g)

abbrev settles : Result OpenFlags → Bool
settles (ok g) = settled g && ltb g 1024
settles (err e) = true

settles_table : all_below 1024 (λ f. settles (normalize_and_validate_flags f)) ≡ true
unfolding all_below normalize_and_validate_flags xor
settles_table = refl

-- An accepted request has exactly one of READONLY and READWRITE and exactly one of ENCRYPTED and
-- PLAINTEXT, it has no CREATE without write access and no two mutex modes, and it is still a set
-- of known flags; a second pass would accept it unchanged.
pub normalize_and_validate_flags-settled :
    (f g : OpenFlags)
    → f < 1024
    → normalize_and_validate_flags f ≡ ok g
    → (settled g ≡ true) × (g < 1024)
normalize_and_validate_flags-settled f g h e =
    ground (
      arith,
      all_below_sound 1024 f (λ x. settles (normalize_and_validate_flags x)) h settles_table,
    )
