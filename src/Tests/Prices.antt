-- ===== src/Tests/Prices.antt =====
-- The laws of the concentrated-liquidity arithmetic at concrete prices and amounts.
use sovereign_shadow_mev.Prelude.{
  ◌*◌, ◌/◌, ◌^◌, ◌<◌, ◌≡◌, arith, true, some, none, min, ◌==◌, if◌then◌else◌, panic, Returns, subst,
  sym,
}
use sovereign_shadow_mev.Prelude.Int.{pos, negsuc}
use sovereign_shadow_mev.Uint.{max_u256}
use sovereign_shadow_mev.V3Math.Arith.{mul_div}
use sovereign_shadow_mev.V3Math.Arith.Laws.{mul_div-value}
use sovereign_shadow_mev.V3Math.Ratio.{get_sqrt_ratio_at_tick, max_tick}
use sovereign_shadow_mev.V3Math.TickSearch.{get_tick_at_sqrt_ratio}
use sovereign_shadow_mev.V3Math.TickSearch.Laws.{Brackets, get_tick_at_sqrt_ratio-Brackets}
use sovereign_shadow_mev.V3Math.Delta.Laws.{get_amount0_delta-up}
use sovereign_shadow_mev.V3Math.SwapStep.{compute_swap_step}
use sovereign_shadow_mev.V3Math.SwapStep.Laws.{
  Spends, compute_swap_step-exact_input, compute_swap_step-panic,
}

compute_swap_step-exact_input_example :
    Returns
      (compute_swap_step (2 ^ 96) (2 ^ 95) (10 ^ 18) (10 ^ 15) 3000 true)
      (Spends (2 ^ 96) (2 ^ 95) (10 ^ 15) true)
compute_swap_step-exact_input_example =
    compute_swap_step-exact_input {current = 2 ^ 96} {target = 2 ^ 95} {liquidity = 10 ^ 18}
      {amount = 10 ^ 15} {fee = 3000} true
      (record {
        target_pos = omega arith;
        current_pos = omega arith;
        current_small = omega arith;
        target_small = omega arith;
        liquidity_pos = omega arith;
        liquidity_small = omega arith;
        amount_small = omega arith;
        fee_small = omega arith;
        amount_pos = omega arith;
        towards = omega arith;
      })

-- 1 wei of input leaves nothing after a fee of 0.3 percent.
compute_swap_step-panic_example : compute_swap_step (2 ^ 96) (2 ^ 95) (10 ^ 18) 1 3000 true ≡ panic
compute_swap_step-panic_example =
    compute_swap_step-panic (2 ^ 96) (2 ^ 95) (10 ^ 18) 1 3000 (omega arith) (omega arith)
      (omega arith) (omega arith)
      (subst (λ a. 0 < a)
        (sym (
          get_amount0_delta-up (2 ^ 95) (2 ^ 96) (10 ^ 18) (omega arith) (omega arith) (omega arith)
            (omega arith)))
        (omega arith))

get_tick_at_sqrt_ratio-Brackets_example :
    Returns
      (get_tick_at_sqrt_ratio (2 ^ 96))
      (Brackets get_sqrt_ratio_at_tick (negsuc 887271) (pos max_tick) (2 ^ 96))
get_tick_at_sqrt_ratio-Brackets_example = get_tick_at_sqrt_ratio-Brackets (2 ^ 96)

mul_div-value_example : mul_div 7 5 3 ≡ (if 3 == 0 then none else some (min (7 * 5 / 3) max_u256))
mul_div-value_example = mul_div-value 7 5 3 (omega arith) (omega arith)
