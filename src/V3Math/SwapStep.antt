-- ===== src/V3Math/SwapStep.antt =====
-- src/v3_math.rs: `compute_swap_step`, one price range of a swap. An `I256` is its bit pattern, a
-- number below 2 ^ 256 that is negative from 2 ^ 255 on.
pub mod Laws
use sovereign_shadow_mev.Prelude.{
  ℕ, ◌+◌, ◌-◌, ◌%◌, ◌^◌, ◌&&◌, ◌||◌, Bool, true, false, not, leb, ltb, ◌==◌, if◌then◌else◌, Run,
  done, ◌>>=◌,
}
use sovereign_shadow_mev.Uint.{add256, sub256}
use sovereign_shadow_mev.V3Math.Arith.{mul_div, mul_div_round_up}
use sovereign_shadow_mev.V3Math.Delta.{
  unwrap_or, get_amount0_delta, get_amount1_delta, get_next_sqrt_price_from_input,
  get_next_sqrt_price_from_output,
}

pub record SwapStepResult : Type 0 where
  pub sqrt_price_next_x96 : ℕ
  pub amount_in : ℕ
  pub amount_out : ℕ
  pub fee_amount : ℕ

-- `x > I256::ZERO`, and `abs`.
abbrev pub is_positive : ℕ → Bool
is_positive w = not (w == 0) && ltb w (2 ^ 255)

abbrev pub abs_i256 : ℕ → ℕ
abs_i256 w = if ltb w (2 ^ 255) then w else 2 ^ 256 - w

-- `1_000_000 - fee_pips` on `u32`.
abbrev pub fee_complement : ℕ → ℕ
fee_complement fee_pips = (1_000_000 + 2 ^ 32 - fee_pips) % 2 ^ 32

unfoldable pub less_fee : ℕ → ℕ → ℕ
less_fee amount_remaining fee_pips =
    unwrap_or (mul_div (abs_i256 amount_remaining) (fee_complement fee_pips) 1_000_000) 0

-- The amount that moves the price the whole way to the target, in and out.
unfoldable pub full_amount_in : ℕ → ℕ → ℕ → Bool → ℕ
full_amount_in current target liquidity zero_for_one =
    if zero_for_one
    then get_amount0_delta target current liquidity true
    else get_amount1_delta current target liquidity true

unfoldable pub full_amount_out : ℕ → ℕ → ℕ → Bool → ℕ
full_amount_out current target liquidity zero_for_one =
    if zero_for_one
    then get_amount1_delta target current liquidity false
    else get_amount0_delta current target liquidity false

-- The first part: the next price.
unfoldable pub next_price : ℕ → ℕ → ℕ → ℕ → ℕ → Bool → Run ℕ
next_price current target liquidity amount_remaining fee_pips zero_for_one =
    if is_positive amount_remaining
    then (if leb (full_amount_in current target liquidity zero_for_one)
          (less_fee amount_remaining fee_pips)
        then done target
        else get_next_sqrt_price_from_input current liquidity (less_fee amount_remaining fee_pips)
            zero_for_one)
    else if leb (full_amount_out current target liquidity zero_for_one) (abs_i256 amount_remaining)
    then done target
    else get_next_sqrt_price_from_output current liquidity (abs_i256 amount_remaining) zero_for_one

-- The second part, from the next price on: an amount that the first part has computed for the target
-- stays where the target is reached.
unfoldable pub finish_step : ℕ → ℕ → ℕ → ℕ → ℕ → Bool → ℕ → SwapStepResult × ℕ
finish_step current target liquidity amount_remaining fee_pips zero_for_one next =
    let exact_input = is_positive amount_remaining in
    let max = next == target in
    let amount_in =
      if not max || not exact_input
      then full_amount_in current next liquidity zero_for_one
      else full_amount_in current target liquidity zero_for_one in
    let amount_out =
      if not max || exact_input
      then full_amount_out current next liquidity zero_for_one
      else full_amount_out current target liquidity zero_for_one in
    let fee_amount =
      if exact_input && not max
      then sub256 (abs_i256 amount_remaining) amount_in
      else unwrap_or (mul_div_round_up amount_in fee_pips (fee_complement fee_pips)) 0 in
    (
      record {
        sqrt_price_next_x96 = next;
        amount_in = amount_in;
        amount_out = amount_out;
        fee_amount = fee_amount;
      },
      if exact_input
          then sub256 amount_remaining (add256 amount_in fee_amount)
          else add256 amount_remaining amount_out,
    )

unfoldable pub compute_swap_step : ℕ → ℕ → ℕ → ℕ → ℕ → Bool → Run (SwapStepResult × ℕ)
compute_swap_step current target liquidity amount_remaining fee_pips zero_for_one =
    next_price current target liquidity amount_remaining fee_pips zero_for_one >>= λ next.
    done (finish_step current target liquidity amount_remaining fee_pips zero_for_one next)
