-- ===== src/MathEngine/Virtual.antt =====
-- src/math_engine.rs: concentrated liquidity as virtual reserves, and its price after an input.
use sovereign_shadow_mev.Prelude.{ℕ, ◌/◌, ◌^◌, ◌||◌, Bool, ◌==◌, if◌then◌else◌}
use sovereign_shadow_mev.Uint.{add512, mul512, u512_to_u256_safe}

unfoldable pub get_v3_virtual_reserves : ℕ → ℕ → Bool → ℕ × ℕ
get_v3_virtual_reserves sqrt_price_x96 liquidity zero_for_one =
    let token0 = u512_to_u256_safe (mul512 liquidity (2 ^ 96) / sqrt_price_x96) in
    let token1 = u512_to_u256_safe (mul512 liquidity sqrt_price_x96 / 2 ^ 96) in
    if (sqrt_price_x96 == 0) || (liquidity == 0)
    then (0, 0)
    else if zero_for_one
    then (token0, token1)
    else (token1, token0)

unfoldable pub get_maverick_virtual_reserves : ℕ → ℕ → Bool → ℕ × ℕ
get_maverick_virtual_reserves sqrt_price_x96 liquidity zero_for_one =
    get_v3_virtual_reserves sqrt_price_x96 liquidity zero_for_one

unfoldable pub get_v3_next_sqrt_price : ℕ → ℕ → ℕ → Bool → ℕ
get_v3_next_sqrt_price sqrt_price_x96 liquidity amount_in zero_for_one =
    let num = mul512 (mul512 liquidity sqrt_price_x96) (2 ^ 96) in
    let den = add512 (mul512 liquidity (2 ^ 96)) (mul512 amount_in sqrt_price_x96) in
    let delta = mul512 amount_in (2 ^ 96) / liquidity in
    if (liquidity == 0) || (amount_in == 0)
    then sqrt_price_x96
    else if zero_for_one
    then (if den == 0 then sqrt_price_x96 else u512_to_u256_safe (num / den))
    else u512_to_u256_safe (add512 sqrt_price_x96 delta)
