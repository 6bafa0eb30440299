-- ===== src/MathEngine/V2/Laws.antt =====
-- The output of a constant product swap leaves a reserve, keeps the product from falling, and grows
-- with the input.
use sovereign_shadow_mev.Prelude.{
  ℕ, ◌+◌, ◌-◌, ◌*◌, ◌/◌, ◌^◌, ◌≤◌, ◌<◌, ◌≡◌, arith, ap, Bool, true, false, min, ◌==◌, dec_lt,
}
use sovereign_shadow_mev.Prelude.Division.{div-mul-le, le-div, div-le, mul-le, pos_mul}
use sovereign_shadow_mev.Uint.{add512, mul512}
use sovereign_shadow_mev.Uint.Laws.{u512_to_u256_safe-min}
use sovereign_shadow_mev.MathEngine.V2.{swap_out_v2, get_v2_output}

-- The exact output of the formula.
abbrev pub exact_out : ℕ → ℕ → ℕ → ℕ
exact_out a x y = a * 997 * y / (x * 1000 + a * 997)

out-lt : (a x y : ℕ) → 0 < x → 0 < y → exact_out a x y < y
out-lt a x y px py =
    let z : y ≡ y - 1 + 1 = omega arith in
    let d = x * 1000 + a * 997 in
    omega (
      arith,
      div-le (y - 1) (a * 997 * y) d (omega arith)
          (omega (arith, pos_mul x y px py, ap (λ (t : ℕ). t * d) z)),
    )

out-le : (a x y : ℕ) → 0 < x → exact_out a x y ≤ y
out-le a x y px =
    div-le y (a * 997 * y) (x * 1000 + a * 997) (omega arith)
      (omega (arith, mul-le 1 0 1 (x * y) (omega arith) (omega arith)))

-- What a swap adds to one reserve and takes from the other does not lower their product.
product_grows : (a x y : ℕ) → 0 < x → x * y ≤ (x + a) * (y - exact_out a x y)
product_grows a x y px =
    let d = x * 1000 + a * 997 in
    let o = exact_out a x y in
    let paid = div-mul-le (a * 997 * y) d in
    let le = out-le a x y px in
    let split : y ≡ y - o + o = omega arith in omega (arith, ap (λ (t : ℕ). (x + a) * t) split)

exact_out_mono : (a b x y : ℕ) → 0 < x → a ≤ b → exact_out a x y ≤ exact_out b x y
exact_out_mono a b x y px h =
    let d = x * 1000 + a * 997 in
    let o = exact_out a x y in
    let paid = div-mul-le (a * 997 * y) d in
    let more = mul-le (b - a) o (b - a) y (omega arith) (out-le a x y px) in
    let split : b ≡ a + (b - a) = omega arith in
    le-div o (b * 997 * y) (x * 1000 + b * 997) (omega arith)
      (omega (arith, ap (λ (t : ℕ). o * t) split, ap (λ (t : ℕ). t * y) split))

nothing : (a x y : ℕ) → a ≡ 0 → 0 < x → swap_out_v2 a x y ≡ exact_out a x y
unfolding swap_out_v2
nothing a x y e px =
    let t : (a == 0) ≡ true = ground arith in
    let z =
      div-le 0 (a * 997 * y) (x * 1000 + a * 997) (omega arith)
        (omega (arith, ap (λ (k : ℕ). k * 997 * y) e)) in
    rw t (omega arith)

-- With reserves of 112 bits, as the pair contracts keep them, the wide arithmetic is exact.
pub swap_out_v2-exact :
    (a x y : ℕ)
    → a < 2 ^ 256
    → x < 2 ^ 112
    → y < 2 ^ 112
    → 0 < a
    → 0 < x
    → 0 < y
    → swap_out_v2 a x y ≡ exact_out a x y
unfolding swap_out_v2
swap_out_v2-exact a x y ha hx hy pa px py =
    let small = out-lt a x y px py in
    let m = mul-le (a * 997) y (2 ^ 256 * 997) (2 ^ 112) (omega arith) (omega arith) in
    let fee : mul512 a 997 ≡ a * 997 = omega arith in
    let num : mul512 (a * 997) y ≡ a * 997 * y = omega arith in
    let den : add512 (mul512 x 1000) (a * 997) ≡ x * 1000 + a * 997 = omega arith in
    rw (fee, num, den) (ground (arith, u512_to_u256_safe-min (exact_out a x y)))

abbrev pub reserve_in : ℕ → ℕ → Bool → ℕ
reserve_in r0 r1 true = r0
reserve_in r0 r1 false = r1

abbrev pub reserve_out : ℕ → ℕ → Bool → ℕ
reserve_out r0 r1 true = r1
reserve_out r0 r1 false = r0

swap_out_v2-value :
    (a x y : ℕ)
    → a < 2 ^ 256
    → x < 2 ^ 112
    → y < 2 ^ 112
    → 0 < x
    → 0 < y
    → swap_out_v2 a x y ≡ exact_out a x y
swap_out_v2-value a x y ha hx hy px py = elim (dec_lt 0 a) [
  | yes pa ↦ swap_out_v2-exact a x y ha hx hy pa px py
  | no none_in ↦ nothing a x y (omega arith) px
]

pub get_v2_output-value :
    (a r0 r1 : ℕ) (z : Bool)
    → a < 2 ^ 256
    → r0 < 2 ^ 112
    → r1 < 2 ^ 112
    → 0 < r0
    → 0 < r1
    → get_v2_output a r0 r1 z ≡ exact_out a (reserve_in r0 r1 z) (reserve_out r0 r1 z)
unfolding get_v2_output
get_v2_output-value a r0 r1 true ha h0 h1 p0 p1 =
    ground (arith, swap_out_v2-value a r0 r1 ha h0 h1 p0 p1)
get_v2_output-value a r0 r1 false ha h0 h1 p0 p1 =
    ground (arith, swap_out_v2-value a r1 r0 ha h1 h0 p1 p0)

-- For an input below 2 ^ 256 and two positive reserves below 2 ^ 112, in both directions, a swap
-- gives less than the whole reserve of the other token, and the product of the reserves after it is
-- not below the product before it.
pub get_v2_output-product :
    (a r0 r1 : ℕ) (z : Bool)
    → a < 2 ^ 256
    → r0 < 2 ^ 112
    → r1 < 2 ^ 112
    → 0 < r0
    → 0 < r1
    → (get_v2_output a r0 r1 z < reserve_out r0 r1 z)
      × (r0 * r1 ≤ (reserve_in r0 r1 z + a) * (reserve_out r0 r1 z - get_v2_output a r0 r1 z))
get_v2_output-product a r0 r1 true ha h0 h1 p0 p1 =
    rw (get_v2_output-value a r0 r1 true ha h0 h1 p0 p1)
      (out-lt a r0 r1 p0 p1, product_grows a r0 r1 p0)
get_v2_output-product a r0 r1 false ha h0 h1 p0 p1 =
    rw (get_v2_output-value a r0 r1 false ha h0 h1 p0 p1)
      (out-lt a r1 r0 p1 p0, omega (arith, product_grows a r1 r0 p1))

reserve_in-pos : (r0 r1 : ℕ) (z : Bool) → 0 < r0 → 0 < r1 → 0 < reserve_in r0 r1 z
reserve_in-pos r0 r1 true p q = p
reserve_in-pos r0 r1 false p q = q

-- A pool without one of its reserves gives nothing.
no_reserve : (a r0 r1 : ℕ) (z : Bool) → min r0 r1 ≡ 0 → get_v2_output a r0 r1 z ≡ 0
unfolding get_v2_output
no_reserve a r0 r1 z e = ground arith

-- For inputs below 2 ^ 256 and reserves below 2 ^ 112, in both directions, a larger input never
-- gives less.
pub get_v2_output_mono :
    (a b r0 r1 : ℕ) (z : Bool)
    → a ≤ b
    → b < 2 ^ 256
    → r0 < 2 ^ 112
    → r1 < 2 ^ 112
    → get_v2_output a r0 r1 z ≤ get_v2_output b r0 r1 z
get_v2_output_mono a b r0 r1 z h hb h0 h1 = elim (dec_lt 0 (min r0 r1)) [
  | yes p ↦
      rw
        (
          get_v2_output-value a r0 r1 z (omega arith) h0 h1 (omega arith) (omega arith),
          get_v2_output-value b r0 r1 z hb h0 h1 (omega arith) (omega arith),
        )
        (exact_out_mono a b (reserve_in r0 r1 z) (reserve_out r0 r1 z)
          (reserve_in-pos r0 r1 z (omega arith) (omega arith)) h)
  | no empty ↦ omega (arith, no_reserve a r0 r1 z (omega arith))
]
