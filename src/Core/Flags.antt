-- ===== src/Core/Flags.antt =====
-- crates/csgdb-core/src/open.rs: `OpenFlags`, a u32 that holds the ten flags, and the policy by which
-- an open request's flags are completed and checked.
pub mod Policy
mod Examples
use csgdb.Prelude.{
  ℕ, ◌-◌, ◌^◌, Bool, not, ◌&&◌, Option, none, some, ◌==◌, bit_and, bit_or, if◌then◌else◌,
}
use csgdb.Core.Error.{Result, ok, invalid_open_flags, reject_if, ◌>>=◌, ◌>>◌}

abbrev pub OpenFlags : Type 0
OpenFlags = ℕ

abbrev pub readonly : OpenFlags
readonly = 0x0001

abbrev pub readwrite : OpenFlags
readwrite = 0x0002

abbrev pub create : OpenFlags
create = 0x0004

abbrev pub uri : OpenFlags
uri = 0x0008

abbrev pub memory : OpenFlags
memory = 0x0010

abbrev pub encrypted : OpenFlags
encrypted = 0x0020

abbrev pub plaintext : OpenFlags
plaintext = 0x0040

abbrev pub fullmutex : OpenFlags
fullmutex = 0x0080

abbrev pub nomutex : OpenFlags
nomutex = 0x0100

abbrev pub nofollow : OpenFlags
nofollow = 0x0200

abbrev pub all_bits : OpenFlags
all_bits = bit_or readonly (
    bit_or readwrite (
      bit_or create (
        bit_or uri (
          bit_or memory
            (bit_or encrypted (bit_or plaintext (bit_or fullmutex (bit_or nomutex nofollow))))))))

unfoldable pub contains : OpenFlags → OpenFlags → Bool
contains f other = bit_and f other == other

unfoldable pub intersects : OpenFlags → OpenFlags → Bool
intersects f other = not (bit_and f other == 0)

-- `!all_bits` of a u32.
unfoldable pub from_bits : ℕ → Option OpenFlags
from_bits bits = if bit_and bits (2 ^ 32 - 1 - all_bits) == 0 then some bits else none

unfoldable pub normalize_and_validate_flags : OpenFlags → Result OpenFlags
unfolding contains intersects
normalize_and_validate_flags flags = do
  reject_if (contains flags readonly && contains flags readwrite) invalid_open_flags
  let access =
      if intersects flags (bit_or readonly readwrite) then flags else bit_or flags readwrite
  reject_if (contains access create && not (contains access readwrite)) invalid_open_flags
  reject_if (contains access encrypted && contains access plaintext) invalid_open_flags
  let secured =
      if intersects access (bit_or encrypted plaintext) then access else bit_or access encrypted
  reject_if (contains secured fullmutex && contains secured nomutex) invalid_open_flags
  ok secured
