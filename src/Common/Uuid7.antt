-- ===== src/Common/Uuid7.antt =====
-- src/common/ids/uuid7.py: the bytes of a UUIDv7 from the time in milliseconds and ten random
-- bytes.
pub mod Order
use be_py_eco.Prelude.{
  ℕ, zero, suc, ◌+◌, ◌*◌, ◌/◌, ◌%◌, ◌^◌, Option, none, some, List, [], ◌∷◌, ◌++◌, ltb,
  if◌then◌else◌,
}
use Prim.Native.Nat.{bit_and, bit_or}

-- `n.to_bytes(k, "big")`, without the range check
abbrev to_bytes : ℕ → ℕ → List ℕ
to_bytes zero n = []
to_bytes (suc k) n = to_bytes k (n / 256) ++ n % 256 ∷ []

-- `rand_bytes[0] = (rand_bytes[0] & 0x0F) | 0x70`
unfoldable pub set_version : ℕ → ℕ
set_version b = bit_or (bit_and b 0x0f) 0x70

-- `rand_bytes[2] = (rand_bytes[2] & 0x3F) | 0x80`
unfoldable pub set_variant : ℕ → ℕ
set_variant b = bit_or (bit_and b 0x3f) 0x80

-- the value of a byte string, most significant byte first
unfoldable pub from_bytes : ℕ → List ℕ → ℕ
from_bytes acc [] = acc
from_bytes acc (b ∷ bs) = from_bytes (acc * 256 + b) bs

pub record RandomBytes : Type 0 where
  pub r0 : ℕ
  pub r1 : ℕ
  pub r2 : ℕ
  pub tail : List ℕ

-- `OverflowError` (`none`) once the milliseconds do not fit in six bytes
unfoldable pub uuid7_bytes : ℕ → RandomBytes → Option (List ℕ)
unfolding set_version set_variant
uuid7_bytes unix_ms r =
    if ltb unix_ms (2 ^ 48)
    then some (to_bytes 6 unix_ms ++ (set_version r.r0 ∷ r.r1 ∷ set_variant r.r2 ∷ r.tail))
    else none
