-- ===== src/MathEngine/Optimal/Laws.antt =====
-- Two equal pools: no input can be profitable, and the closed form still recommends one.
use sovereign_shadow_mev.Prelude.{
  ℕ, ◌+◌, ◌-◌, ◌*◌, ◌/◌, ◌^◌, ◌≤◌, ◌<◌, ◌≡◌, arith, leb, false, ◌==◌, dec_lt,
}
use sovereign_shadow_mev.Prelude.Division.{le-div, mul-le, pos_mul}
use sovereign_shadow_mev.Uint.{add512, sub512, mul512}
use sovereign_shadow_mev.Uint.Laws.{u512_to_u256_safe-min}
use sovereign_shadow_mev.MathEngine.Sqrt.{uint_sqrt_512}
use sovereign_shadow_mev.MathEngine.Sqrt.Laws.{IsRoot, uint_sqrt_512-IsRoot}
use sovereign_shadow_mev.MathEngine.Optimal.{keep_bps, calculate_optimal_v2_v2}

-- The root of a number that is at least a square is at least its side.
root_above : (n r s : ℕ) → IsRoot n r → s * s ≤ n → s ≤ r
root_above n r s root h = grind (arith, root.1)

-- The product under the root for two pools with reserves `r` and fees that keep `g` of 10000.
product_of :
    (r g : ℕ)
    → 0 < r
    → r < 2 ^ 112
    → g ≤ 10000
    → mul512 (mul512 (mul512 (mul512 r r) (mul512 r r)) (mul512 g g)) 100_000_000
      ≡ r * r * (r * r) * (g * g) * 100_000_000
product_of r g p h hg =
    let a = mul-le r r (2 ^ 112) (2 ^ 112) (omega arith) (omega arith) in
    let b = mul-le (r * r) (r * r) (2 ^ 224) (2 ^ 224) (omega arith) (omega arith) in
    let c = mul-le g g 10000 10000 hg hg in
    let d = mul-le (r * r * (r * r)) (g * g) (2 ^ 448) (2 ^ 27) (omega arith) (omega arith) in
    let e1 : mul512 r r ≡ r * r = omega arith in
    let e2 : mul512 g g ≡ g * g = omega arith in
    let e3 : mul512 (r * r) (r * r) ≡ r * r * (r * r) = omega arith in
    let e4 : mul512 (r * r * (r * r)) (g * g) ≡ r * r * (r * r) * (g * g) = omega arith in
    rw (e1, e2, e3, e4) (omega arith)

small_side : (s n : ℕ) → s * s ≤ n → n < 2 ^ 512 → s < 2 ^ 256
small_side s n h small = elim (dec_lt s (2 ^ 256)) [
  | yes p ↦ p
  | no big ↦
      let m = mul-le (2 ^ 256) (2 ^ 256) s s (omega arith) (omega arith) in absurd (omega arith)
]

-- (s - t) * 10000 is at least r times the divisor, for a root s that is at least r * r * g * 10000.
enough :
    (r g s : ℕ)
    → 1 < g
    → g ≤ 10000
    → r * r * g * 10000 ≤ s
    → r * (g * (10000 * r + g * r)) ≤ (s - r * r * 10000) * 10000
enough r g s pg hg root =
    let q = r * r in
    let a = mul-le (q * g) g (q * g) 10000 (omega arith) hg in
    let b = mul-le q 2 q g (omega arith) pg in omega (arith, a, b)

-- Between two pools with the same positive reserves below 2 ^ 112 and a fee of at most 99.98
-- percent in each, the closed form recommends an input of at least the whole reserve.
pub calculate_optimal_v2_v2-equal_pools :
    (r fee : ℕ) → 0 < r → r < 2 ^ 112 → fee ≤ 9998 → r ≤ calculate_optimal_v2_v2 r r r r fee fee
unfolding calculate_optimal_v2_v2
calculate_optimal_v2_v2-equal_pools r fee pr hr hf =
    let g = 10000 - fee in
    let keep : keep_bps fee ≡ g = omega arith in
    let q = mul-le r r (2 ^ 112) (2 ^ 112) (omega arith) (omega arith) in
    let n = r * r * (r * r) * (g * g) * 100_000_000 in
    let c = mul-le g g 10000 10000 (omega arith) (omega arith) in
    let qq = mul-le (r * r) (r * r) (2 ^ 224) (2 ^ 224) (omega arith) (omega arith) in
    let d = mul-le (r * r * (r * r)) (g * g) (2 ^ 448) (2 ^ 27) (omega arith) (omega arith) in
    let s = uint_sqrt_512 n in
    let root = uint_sqrt_512-IsRoot n (omega arith) in
    let below = small_side s n root.0 (omega arith) in
    let above = root_above n s (r * r * g * 10000) root (omega arith) in
    let two = mul-le (r * r) 2 (r * r) g (omega arith) (omega arith) in
    let pq = pos_mul r r pr pr in
    let gr = mul-le g r 10000 (2 ^ 112) (omega arith) (omega arith) in
    let den = mul-le g (10000 * r + g * r) 10000 (2 ^ 140) (omega arith) (omega arith) in
    let e1 : mul512 r r ≡ r * r = omega arith in
    let e2 : mul512 (r * r) 10_000 ≡ r * r * 10000 = omega arith in
    let e3 : mul512 10_000 r ≡ 10000 * r = omega arith in
    let e4 : mul512 g r ≡ g * r = omega arith in
    let e5 : add512 (10000 * r) (g * r) ≡ 10000 * r + g * r = omega arith in
    let e6 : mul512 g (10000 * r + g * r) ≡ g * (10000 * r + g * r) = omega arith in
    let e7 : sub512 s (r * r * 10000) ≡ s - r * r * 10000 = omega arith in
    let e8 : mul512 (s - r * r * 10000) 10_000 ≡ (s - r * r * 10000) * 10000 = omega arith in
    let t1 : leb s (r * r * 10000) ≡ false = ground arith in
    let pd = pos_mul g (10000 * r + g * r) (omega arith) (omega arith) in
    let t2 : (g * (10000 * r + g * r) == 0) ≡ false = ground arith in
    let quotient =
      le-div r ((s - r * r * 10000) * 10000) (g * (10000 * r + g * r)) pd
        (enough r g s (omega arith) (omega arith) above) in
    rw (keep, product_of r g pr hr (omega arith), e1, e2, e3, e4, e5, e6, t1, t2, e7, e8)
      (omega
        (arith, u512_to_u256_safe-min ((s - r * r * 10000) * 10000 / (g * (10000 * r + g * r)))))
