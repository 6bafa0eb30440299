-- ===== src/MathEngine/Stable.antt =====
-- src/math_engine.rs: the stable curve x³y + y³x = k. The first guess, two steps in floating point, is
-- a parameter of the model.
use sovereign_shadow_mev.Prelude.{
  ℕ, zero, suc, ◌-◌, ◌/◌, ◌^◌, ◌||◌, Bool, not, min, max, ltb, ◌==◌, if◌then◌else◌, Run, done,
  panic, ◌>>=◌,
}
use sovereign_shadow_mev.Uint.{add256, sub256, mul256, add512, sub512, mul512, u512_to_u256_safe}
use sovereign_shadow_mev.MathEngine.V2.{get_v2_output}

abbrev pub cube512 : ℕ → ℕ
cube512 x = mul512 (mul512 x x) x

unfoldable pub aerodrome_k : ℕ → ℕ → ℕ
aerodrome_k x y =
    u512_to_u256_safe (add512 (mul512 (cube512 x) y / 10 ^ 36) (mul512 (cube512 y) x / 10 ^ 36))

unfoldable pub get_aerodrome_marginal_price : ℕ → ℕ → ℕ
get_aerodrome_marginal_price x y =
    let x2 = mul512 x x in
    let y2 = mul512 y y in
    let numerator = add512 (mul512 (mul512 3 x2) y) (mul512 y2 y) in
    let denominator = add512 (mul512 x2 x) (mul512 (mul512 3 x) y2) in
    if denominator == 0 then 0 else u512_to_u256_safe (mul512 numerator (10 ^ 18) / denominator)

-- The refinement of the guess: at most `rounds` rounds, fewer where the correction is 0.
unfoldable pub refine : ℕ → ℕ → ℕ → ℕ → ℕ
refine zero x k y = y
refine (suc rounds) x k y =
    let y2 = mul512 y y in
    let f_y = add512 (mul512 (cube512 x) y) (mul512 (mul512 y2 y) x) / 10 ^ 36 in
    let f_prime_y = add512 (cube512 x) (mul512 (mul512 3 y2) x) / 10 ^ 36 in
    let over = u512_to_u256_safe (sub512 f_y k / max f_prime_y 1) in
    let under = u512_to_u256_safe (sub512 k f_y / max f_prime_y 1) in
    let lower = refine rounds x k (sub256 y (min over (y / 2))) in
    let higher = refine rounds x k (add256 y (min under y)) in
    if ltb k f_y then (if over == 0 then y else lower) else if under == 0 then y else higher

-- `v.to::<u128>()`
abbrev pub to_u128 : ℕ → Run ℕ
to_u128 v = if ltb v (2 ^ 128) then done v else panic

unfoldable pub get_aerodrome_output : (ℕ → ℕ → ℕ → ℕ) → ℕ → ℕ → ℕ → Bool → Bool → Run ℕ
get_aerodrome_output guess amount_in reserves0 reserves1 is_stable zero_for_one =
    let r_in = if zero_for_one then reserves0 else reserves1 in
    let r_out = if zero_for_one then reserves1 else reserves0 in
    let x_new = add256 r_in (mul256 amount_in 9997 / 10000) in
    if not is_stable
    then done (get_v2_output amount_in reserves0 reserves1 zero_for_one)
    else if (amount_in == 0) || (r_in == 0) || (r_out == 0)
    then done 0
    else to_u128 x_new >>= λ x_f. to_u128 r_in >>= λ r_in_f. to_u128 r_out >>= λ r_out_f.
        done (r_out - refine 3 x_new (aerodrome_k r_in r_out) (guess x_f r_in_f r_out_f))
