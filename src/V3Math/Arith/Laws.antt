-- ===== src/V3Math/Arith/Laws.antt =====
-- The exact value of the 512-bit multiply-and-divide, in both roundings.
use sovereign_shadow_mev.Prelude.{
  ℕ, zero, suc, ◌+◌, ◌-◌, ◌*◌, ◌/◌, ◌^◌, ◌≤◌, ◌<◌, ◌≡◌, arith, some, none, min, ◌∙◌, ◌==◌,
  if◌then◌else◌,
}
use sovereign_shadow_mev.Prelude.Division.{ceil_div, mul-lt}
use sovereign_shadow_mev.Uint.{max_u256, mul512, add512, sub512}
use sovereign_shadow_mev.Uint.Laws.{u512_to_u256_safe-min}
use sovereign_shadow_mev.V3Math.Arith.{mul_div, mul_div_round_up, mul_shift_128}

product_bound : (a b : ℕ) → a < 2 ^ 256 → b < 2 ^ 256 → a * b ≤ (2 ^ 256 - 1) * (2 ^ 256 - 1)
product_bound a b p q = grind arith

-- The product of two 256-bit numbers fits in 512 bits.
pub mul512-exact : (a b : ℕ) → a < 2 ^ 256 → b < 2 ^ 256 → mul512 a b ≡ a * b
mul512-exact a b p q = omega (arith, product_bound a b p q)

div-le_self : (a d : ℕ) → a / d ≤ a
div-le_self a d = grind arith

pub mul_div-floor :
    (a b d : ℕ)
    → a < 2 ^ 256
    → b < 2 ^ 256
    → (mul_div a b 0 ≡ none) × (0 < d → mul_div a b d ≡ some (min (a * b / d) max_u256))
unfolding mul_div
mul_div-floor a b d p q = (
  ground arith,
  λ h. ground (
    arith,
    mul512-exact a b p q,
    div-le_self (a * b) d,
    product_bound a b p q,
    u512_to_u256_safe-min (a * b / d),
  ),
)

round_up_sum :
    (a b d : ℕ)
    → a < 2 ^ 256
    → b < 2 ^ 256
    → d < 2 ^ 256
    → 0 < d
    → sub512 (add512 (mul512 a b) d) 1 ≡ a * b + d - 1
round_up_sum a b d p q r h = omega (arith, product_bound a b p q)

pub mul_div_round_up-ceil :
    (a b d : ℕ)
    → a < 2 ^ 256
    → b < 2 ^ 256
    → d < 2 ^ 256
    → (mul_div_round_up a b 0 ≡ none)
      × (0 < d → mul_div_round_up a b d ≡ some (min (ceil_div (a * b) d) max_u256))
unfolding mul_div_round_up
mul_div_round_up-ceil a b d p q r = (
  ground arith,
  λ h. ground (
    arith,
    round_up_sum a b d p q r h,
    div-le_self (a * b + d - 1) d,
    product_bound a b p q,
    u512_to_u256_safe-min ((a * b + d - 1) / d),
  ),
)

-- For a number below 2 ^ 256 and one below 2 ^ 128, `mul_shift_128` is the true product without its
-- low 128 bits, and never saturates.
pub mul_shift_128-floor :
    (a b : ℕ) → a < 2 ^ 256 → b < 2 ^ 128 → mul_shift_128 a b ≡ a * b / 2 ^ 128
unfolding mul_shift_128
mul_shift_128-floor a b p q =
    ground (arith, mul-lt a b (2 ^ 256) (2 ^ 128) p q, u512_to_u256_safe-min (a * b / 2 ^ 128))

-- `mul_div` of 256-bit numbers is `none` for a divisor of 0, and otherwise the floor of the true
-- quotient, or the largest 256-bit number where the quotient does not fit.
pub mul_div-value :
    (a b d : ℕ)
    → a < 2 ^ 256
    → b < 2 ^ 256
    → mul_div a b d ≡ (if d == 0 then none else some (min (a * b / d) max_u256))
mul_div-value a b zero p q = (mul_div-floor a b 0 p q).0
mul_div-value a b (suc d) p q = (mul_div-floor a b (suc d) p q).1 (omega arith) ∙ ground arith

-- `mul_div_round_up` of 256-bit numbers is `none` for a divisor of 0, and otherwise the ceiling of
-- the true quotient, or the largest 256-bit number where that does not fit.
pub mul_div_round_up-value :
    (a b d : ℕ)
    → a < 2 ^ 256
    → b < 2 ^ 256
    → d < 2 ^ 256
    → mul_div_round_up a b d ≡ (if d == 0 then none else some (min (ceil_div (a * b) d) max_u256))
mul_div_round_up-value a b zero p q r = (mul_div_round_up-ceil a b 0 p q r).0
mul_div_round_up-value a b (suc d) p q r =
    (mul_div_round_up-ceil a b (suc d) p q r).1 (omega arith) ∙ ground arith
