-- ===== src/MathEngine/V2.antt =====
-- src/math_engine.rs: `get_v2_output`, the constant product formula with its fee of 0.3 percent.
pub mod Laws
use sovereign_shadow_mev.Prelude.{ℕ, ◌+◌, ◌*◌, ◌/◌, ◌%◌, ◌^◌, ◌||◌, Bool, ◌==◌, if◌then◌else◌}
use sovereign_shadow_mev.Uint.{add512, mul512, u512_to_u256_safe}

-- The formula on the two reserves; the quotient is taken only where the divisor is not 0.
unfoldable pub swap_out_v2 : ℕ → ℕ → ℕ → ℕ
swap_out_v2 amount_in reserve_in reserve_out =
    let amt_in_with_fee = mul512 amount_in 997 in
    let numerator = mul512 amt_in_with_fee reserve_out in
    let denominator = add512 (mul512 reserve_in 1000) amt_in_with_fee in
    if (amount_in == 0) || (reserve_in == 0) || (reserve_out == 0)
    then 0
    else u512_to_u256_safe (numerator / denominator)

unfoldable pub get_v2_output : ℕ → ℕ → ℕ → Bool → ℕ
get_v2_output amount_in reserves0 reserves1 zero_for_one =
    if (reserves0 == 0) || (reserves1 == 0)
    then 0
    else if zero_for_one
    then swap_out_v2 amount_in reserves0 reserves1
    else swap_out_v2 amount_in reserves1 reserves0
