-- ===== src/MathEngine/Sqrt/Laws.antt =====
-- `uint_sqrt_512` is the exact integer square root.
use mathlib.Core.Logic.{dif_pos, dif_neg}
use mathlib.Core.WellFounded.{Acc}
use native.Mathlib.Bridge.{le_prop}
use native.Mathlib.Nat.{pow-suc}
use sovereign_shadow_mev.Prelude.{
  ℕ, zero, suc, ◌+◌, ◌-◌, ap, ◌*◌, ◌/◌, ◌^◌, ◌≤◌, ◌<◌, ◌≡◌, arith, ◌==◌, dec_lt, Bool-cases, inl,
  inr,
}
use sovereign_shadow_mev.Prelude.Order.{lt_wf}
use sovereign_shadow_mev.Prelude.Division.{div-mul-le, lt-div-mul, mul-le}
use sovereign_shadow_mev.Uint.{bit_len}
use sovereign_shadow_mev.Uint.Laws.{lt-pow-bit_len}
use sovereign_shadow_mev.MathEngine.Sqrt.{newton, newton_loop, uint_sqrt_512}

square_shift : (a d : ℕ) → 4 * (a * (a + d)) ≤ (a + (a + d)) * (a + (a + d))
square_shift a d = omega arith

square_ordered : (a b : ℕ) → a ≤ b → 4 * (a * b) ≤ (a + b) * (a + b)
square_ordered a b h = let e : b ≡ a + (b - a) = omega arith in rw e (square_shift a (b - a))

-- The square of a sum is at least four times the product.
square_sum : (a b : ℕ) → 4 * (a * b) ≤ (a + b) * (a + b)
square_sum a b = elim (dec_lt a b) [
  | yes h ↦ square_ordered a b (omega arith)
  | no h ↦ omega (arith, square_ordered b a (omega arith))
]

-- A step of the iteration never falls below the root.
newton_above : (n x : ℕ) → 0 < x → n < (newton n x + 1) * (newton n x + 1)
newton_above n x p =
    let q = n / x in
    let y = newton n x in
    let r = lt-div-mul n x p in
    let s = square_sum x (q + 1) in
    let m =
      mul-le (x + (q + 1)) (x + (q + 1)) (2 * (y + 1)) (2 * (y + 1)) (omega arith) (omega arith) in
    omega arith

abbrev pub IsRoot : ℕ → ℕ → Type 0
IsRoot n r = (r * r ≤ n) × (n < (r + 1) * (r + 1))

newton_pos : (n x : ℕ) → 0 < n → 0 < x → 0 < newton n x
newton_pos n x p q = elim (dec_lt 1 x) [
  | yes h ↦ omega arith
  | no h ↦
      let e : x ≡ 1 = omega arith in omega (arith, lt-div-mul n x q, ap (λ (k : ℕ). n / x * k) e)
]

newton_loop-IsRoot :
    (n x : ℕ) (w : Acc ◌<◌ x) → 0 < n → 0 < x → n < (x + 1) * (x + 1) → IsRoot n (newton_loop n x w)
unfolding newton_loop
newton_loop-IsRoot n x (Acc.intro _ smaller) pn px above = elim (dec_lt (newton n x) x) [
  | yes h ↦ rw (dif_pos (dec_lt (newton n x) x) le_prop h) (
      newton_loop-IsRoot n (newton n x) (smaller (newton n x) h) pn (newton_pos n x pn px)
        (newton_above n x px))
  | no h ↦
      rw (dif_neg (dec_lt (newton n x) x) h)
        (omega (arith, div-mul-le n x, mul-le x x (n / x) x (omega arith) (omega arith)), above)
]

half_pow : (b : ℕ) → 2 ^ b ≤ 2 ^ (b / 2 + 1) * 2 ^ (b / 2 + 1)
half_pow zero = omega arith
half_pow (suc zero) = omega arith
half_pow (suc (suc b)) =
    let e : suc (suc b) / 2 + 1 ≡ suc (b / 2 + 1) = omega arith in
    let d : 2 ^ suc (b / 2 + 1) ≡ 2 * 2 ^ (b / 2 + 1) = omega (arith, pow-suc 2 (b / 2 + 1)) in
    rw (e, d) (omega (arith, pow-suc 2 (suc b), pow-suc 2 b, half_pow b))

pow_pos : (k : ℕ) → 0 < 2 ^ k
pow_pos zero = omega arith
pow_pos (suc k) = omega (arith, pow-suc 2 k, pow_pos k)

-- For every number below 2 ^ 512 the loop ends, and the result is the square root rounded down.
pub uint_sqrt_512-IsRoot : (n : ℕ) → n < 2 ^ 512 → IsRoot n (uint_sqrt_512 n)
unfolding uint_sqrt_512
uint_sqrt_512-IsRoot n h = elim (Bool-cases (n == 0)) [
  | inl z ↦ rw z (ground arith)
  | inr nz ↦
      let x = 2 ^ (bit_len 512 n / 2 + 1) in
      rw nz (
        newton_loop-IsRoot n x (lt_wf.apply x) (ground arith) (pow_pos (bit_len 512 n / 2 + 1))
          (omega (arith, lt-pow-bit_len 512 n h, half_pow (bit_len 512 n))))
]
