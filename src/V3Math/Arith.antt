-- ===== src/V3Math/Arith.antt =====
-- src/v3_math.rs: `mul_div`, its two roundings and `mul_shift_128`, through 512-bit products.
pub mod Laws
use sovereign_shadow_mev.Prelude.{ℕ, ◌/◌, ◌^◌, Option, none, some, ◌==◌, if◌then◌else◌}
use sovereign_shadow_mev.Uint.{add512, sub512, mul512, u512_to_u256_safe}

unfoldable pub mul_div : ℕ → ℕ → ℕ → Option ℕ
mul_div a b denominator =
    if denominator == 0 then none else some (u512_to_u256_safe (mul512 a b / denominator))

unfoldable pub mul_div_round_up : ℕ → ℕ → ℕ → Option ℕ
mul_div_round_up a b denominator =
    if denominator == 0
    then none
    else some (u512_to_u256_safe (sub512 (add512 (mul512 a b) denominator) 1 / denominator))

unfoldable pub mul_div_round_down : ℕ → ℕ → ℕ → Option ℕ
mul_div_round_down a b denominator = mul_div a b denominator

unfoldable pub mul_shift_128 : ℕ → ℕ → ℕ
mul_shift_128 a b = u512_to_u256_safe (mul512 a b / 2 ^ 128)
