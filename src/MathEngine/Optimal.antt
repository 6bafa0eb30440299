-- ===== src/MathEngine/Optimal.antt =====
-- src/math_engine.rs: the closed-form input between two constant product pools.
pub mod Laws
use sovereign_shadow_mev.Prelude.{ℕ, ◌+◌, ◌-◌, ◌*◌, ◌/◌, ◌%◌, ◌^◌, leb, ◌==◌, if◌then◌else◌}
use sovereign_shadow_mev.Uint.{add512, sub512, mul512, u512_to_u256_safe}
use sovereign_shadow_mev.MathEngine.Sqrt.{uint_sqrt_512}

-- `10000 - fee_bps` on `u32`.
abbrev pub keep_bps : ℕ → ℕ
keep_bps fee_bps = (10_000 + 2 ^ 32 - fee_bps) % 2 ^ 32

unfoldable pub calculate_optimal_v2_v2 : ℕ → ℕ → ℕ → ℕ → ℕ → ℕ → ℕ
calculate_optimal_v2_v2 r1_in r1_out r2_in r2_out fee1_bps fee2_bps =
    let g1 = keep_bps fee1_bps in
    let g2 = keep_bps fee2_bps in
    let p1 = mul512 r1_in r2_in in
    let p2 = mul512 r1_out r2_out in
    let p3 = mul512 g1 g2 in
    let product = mul512 (mul512 (mul512 p1 p2) p3) 100_000_000 in
    let sqrt_product = uint_sqrt_512 product in
    let term2 = mul512 p1 10_000 in
    let d1 = mul512 10_000 r2_in in
    let d2 = mul512 g2 r1_out in
    let denominator = mul512 g1 (add512 d1 d2) in
    if leb sqrt_product term2
    then 0
    else if denominator == 0
    then 0
    else u512_to_u256_safe (mul512 (sub512 sqrt_product term2) 10_000 / denominator)
