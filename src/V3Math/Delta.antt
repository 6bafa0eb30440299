-- ===== src/V3Math/Delta.antt =====
-- src/v3_math.rs: token amounts of a price range, and the price after an amount.
pub mod Laws
use sovereign_shadow_mev.Prelude.{
  ℕ, ◌+◌, ◌-◌, ◌*◌, ◌/◌, ◌^◌, ◌&&◌, Bool, true, false, Option, none, some, leb, ltb, ◌==◌,
  if◌then◌else◌, Run, done, ◌>>=◌, div_run,
}
use sovereign_shadow_mev.Uint.{max_u256, add256, sub256, mul256, shl256}
use sovereign_shadow_mev.V3Math.Arith.{mul_div, mul_div_round_up}

abbrev pub unwrap_or : Option ℕ → ℕ → ℕ
unwrap_or none d = d
unwrap_or (some x) d = x

abbrev pub q96 : ℕ
q96 = 2 ^ 96

unfoldable pub get_amount_0_for_liquidity : ℕ → ℕ → ℕ → ℕ
get_amount_0_for_liquidity lower upper liquidity =
    let lo = if leb lower upper then lower else upper in
    let hi = if leb lower upper then upper else lower in
    let num = unwrap_or (mul_div liquidity (sub256 hi lo) 1) 0 in
    let den = unwrap_or (mul_div hi lo q96) max_u256 in
    if den == 0 then 0 else unwrap_or (mul_div num 1 den) 0

unfoldable pub get_amount_1_for_liquidity : ℕ → ℕ → ℕ → ℕ
get_amount_1_for_liquidity lower upper liquidity =
    unwrap_or (mul_div liquidity (upper - lower) q96) 0

unfoldable pub get_liquidity_for_amount_0 : ℕ → ℕ → ℕ → ℕ
get_liquidity_for_amount_0 lower upper amount0 =
    let delta = upper - lower in
    let den = unwrap_or (mul_div upper lower q96) 0 in
    if delta == 0 then 0 else unwrap_or (mul_div amount0 den delta) 0

unfoldable pub get_liquidity_for_amount_1 : ℕ → ℕ → ℕ → ℕ
get_liquidity_for_amount_1 lower upper amount1 =
    let delta = upper - lower in if delta == 0 then 0 else mul256 amount1 q96 / delta

unfoldable pub get_amount0_delta : ℕ → ℕ → ℕ → Bool → ℕ
get_amount0_delta sqrt_ratio_a_x96 sqrt_ratio_b_x96 liquidity round_up =
    let swapped = ltb sqrt_ratio_b_x96 sqrt_ratio_a_x96 in
    let sqrt_ratio_a = if swapped then sqrt_ratio_b_x96 else sqrt_ratio_a_x96 in
    let sqrt_ratio_b = if swapped then sqrt_ratio_a_x96 else sqrt_ratio_b_x96 in
    let numerator1 = shl256 liquidity 96 in
    let numerator2 = sub256 sqrt_ratio_b sqrt_ratio_a in
    if round_up
    then unwrap_or
        (mul_div_round_up (unwrap_or (mul_div_round_up numerator1 numerator2 sqrt_ratio_b) 0) 1
          sqrt_ratio_a)
        0
    else unwrap_or
        (mul_div (unwrap_or (mul_div numerator1 numerator2 sqrt_ratio_b) 0) 1 sqrt_ratio_a) 0

unfoldable pub get_amount1_delta : ℕ → ℕ → ℕ → Bool → ℕ
get_amount1_delta sqrt_ratio_a_x96 sqrt_ratio_b_x96 liquidity round_up =
    let swapped = ltb sqrt_ratio_b_x96 sqrt_ratio_a_x96 in
    let sqrt_ratio_a = if swapped then sqrt_ratio_b_x96 else sqrt_ratio_a_x96 in
    let sqrt_ratio_b = if swapped then sqrt_ratio_a_x96 else sqrt_ratio_b_x96 in
    if round_up
    then unwrap_or (mul_div_round_up liquidity (sub256 sqrt_ratio_b sqrt_ratio_a) q96) 0
    else unwrap_or (mul_div liquidity (sub256 sqrt_ratio_b sqrt_ratio_a) q96) 0

unfoldable pub get_next_sqrt_price_from_input : ℕ → ℕ → ℕ → Bool → Run ℕ
get_next_sqrt_price_from_input sqrt_price_x96 liquidity amount_in true =
    let numerator = shl256 liquidity 96 in
    let product = mul256 amount_in sqrt_price_x96 in
    let denominator = add256 numerator product in
    div_run product amount_in >>= λ quotient.
    if (quotient == sqrt_price_x96) && leb numerator denominator
    then done (unwrap_or (mul_div_round_up numerator sqrt_price_x96 denominator) 0)
    else div_run numerator sqrt_price_x96 >>= λ ratio.
        done (unwrap_or (mul_div_round_up numerator 1 (add256 ratio amount_in)) 0)
get_next_sqrt_price_from_input sqrt_price_x96 liquidity amount_in false =
    div_run (shl256 amount_in 96) liquidity >>= λ quotient. done (add256 sqrt_price_x96 quotient)

unfoldable pub get_next_sqrt_price_from_output : ℕ → ℕ → ℕ → Bool → Run ℕ
get_next_sqrt_price_from_output sqrt_price_x96 liquidity amount_out true =
    div_run (shl256 amount_out 96) liquidity >>= λ quotient. done (sub256 sqrt_price_x96 quotient)
get_next_sqrt_price_from_output sqrt_price_x96 liquidity amount_out false =
    let numerator = shl256 liquidity 96 in
    let product = mul256 amount_out sqrt_price_x96 in
    let denominator = sub256 numerator product in
    done (unwrap_or (mul_div_round_up numerator sqrt_price_x96 denominator) 0)
