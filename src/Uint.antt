-- ===== src/Uint.antt =====
-- The fixed-width integers of the sources: a `U256` is a number below 2 ^ 256, a `U512` one below
-- 2 ^ 512. The operators wrap around, as the crate of these integers documents; `/` panics at 0.
pub mod Laws
use sovereign_shadow_mev.Prelude.{
  ℕ, zero, suc, ◌+◌, ◌-◌, ◌*◌, ◌/◌, ◌%◌, ◌^◌, ◌||◌, Bool, not, ◌==◌, if◌then◌else◌, min,
}

-- `U256::MAX`
abbrev pub max_u256 : ℕ
max_u256 = 2 ^ 256 - 1

abbrev pub add256 : ℕ → ℕ → ℕ
add256 a b = (a + b) % 2 ^ 256

abbrev pub sub256 : ℕ → ℕ → ℕ
sub256 a b = (a + 2 ^ 256 - b) % 2 ^ 256

abbrev pub mul256 : ℕ → ℕ → ℕ
mul256 a b = a * b % 2 ^ 256

-- `a << k`, which drops the bits above the width.
abbrev pub shl256 : ℕ → ℕ → ℕ
shl256 a k = a * 2 ^ k % 2 ^ 256

-- `saturating_add`; `saturating_sub` is the truncated `-` of the natural numbers.
abbrev pub saturating_add256 : ℕ → ℕ → ℕ
saturating_add256 a b = min (a + b) max_u256

abbrev pub add512 : ℕ → ℕ → ℕ
add512 a b = (a + b) % 2 ^ 512

abbrev pub sub512 : ℕ → ℕ → ℕ
sub512 a b = (a + 2 ^ 512 - b) % 2 ^ 512

abbrev pub mul512 : ℕ → ℕ → ℕ
mul512 a b = a * b % 2 ^ 512

-- The 64-bit limb `i` of `v.as_limbs()`.
abbrev pub limb : ℕ → ℕ → ℕ
limb v i = v / 2 ^ (64 * i) % 2 ^ 64

abbrev pub from_limbs : ℕ → ℕ → ℕ → ℕ → ℕ
from_limbs a b c d = a + b * 2 ^ 64 + c * 2 ^ 128 + d * 2 ^ 192

-- `bit_len` of a number of at most `n` bits.
unfoldable pub bit_len : ℕ → ℕ → ℕ
bit_len zero x = 0
bit_len (suc n) x = if x == 0 then 0 else suc (bit_len n (x / 2))

-- `u512_to_u256_safe`: saturates where one of the upper four limbs is not zero.
unfoldable pub u512_to_u256_safe : ℕ → ℕ
u512_to_u256_safe v =
    if not (limb v 4 == 0) || not (limb v 5 == 0) || not (limb v 6 == 0) || not (limb v 7 == 0)
    then max_u256
    else from_limbs (limb v 0) (limb v 1) (limb v 2) (limb v 3)
