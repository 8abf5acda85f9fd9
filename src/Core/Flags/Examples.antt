-- ===== src/Core/Flags/Examples.antt =====
-- Runs of the flags policy.
use csgdb.Prelude.{◌<◌, ◌≡◌, refl, bit_or, arith, true, none}
use csgdb.Core.Error.{ok, err, invalid_open_flags}
use csgdb.Core.Flags.{
  normalize_and_validate_flags, from_bits, readonly, readwrite, create, encrypted, memory,
}
use csgdb.Core.Flags.Policy.{
  normalize_and_validate_flags-eq, normalize_and_validate_flags-settled, settled,
}

defaults_added :
    normalize_and_validate_flags create ≡ ok (bit_or create (bit_or readwrite encrypted))
unfolding normalize_and_validate_flags
defaults_added = refl

unknown_bits : from_bits 0x0401 ≡ none
unfolding from_bits
unknown_bits = refl

normalize_and_validate_flags-eq_example :
    normalize_and_validate_flags (bit_or readonly create) ≡ err invalid_open_flags
unfolding normalize_and_validate_flags
normalize_and_validate_flags-eq_example =
    normalize_and_validate_flags-eq (bit_or readonly create) (omega arith)

normalize_and_validate_flags-settled_example :
    (settled (bit_or memory (bit_or readwrite encrypted)) ≡ true)
    × (bit_or memory (bit_or readwrite encrypted) < 1024)
unfolding normalize_and_validate_flags
normalize_and_validate_flags-settled_example =
    normalize_and_validate_flags-settled memory (bit_or memory (bit_or readwrite encrypted))
      (omega arith) refl
