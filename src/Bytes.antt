-- ===== src/Bytes.antt =====
-- Byte strings as lists of numbers below 256, their slices and big-endian values.
pub mod Laws
use sovereign_shadow_mev.Prelude.{
  ℕ, zero, suc, ◌+◌, ◌-◌, ◌*◌, ◌/◌, ◌%◌, ◌≤◌, ◌<◌, ◌++◌, List, [], ◌∷◌, take, drop,
}

-- `&data[start..start + n]`, within the bounds.
abbrev pub slice : List ℕ → ℕ → ℕ → List ℕ
slice bytes start n = take n (drop start bytes)

be_from : ℕ → List ℕ → ℕ
be_from acc [] = acc
be_from acc (b ∷ bs) = be_from (acc * 256 + b) bs

-- The value of big-endian bytes, as `from_be_bytes` and `from_be_slice` read them.
unfoldable pub from_be_bytes : List ℕ → ℕ
unfolding be_from
from_be_bytes bytes = be_from 0 bytes

-- The `n` big-endian bytes of a number, as `to_be_bytes` writes them.
unfoldable pub to_be_bytes : ℕ → ℕ → List ℕ
to_be_bytes zero x = []
to_be_bytes (suc n) x = to_be_bytes n (x / 256) ++ (x % 256) ∷ []
