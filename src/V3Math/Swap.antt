-- ===== src/V3Math/Swap.antt =====
-- src/v3_math.rs: `simulate_swap_with_limit`, the loop over the initialized ticks. Its fuel is a
-- parameter, `none` where it runs out: the source bounds the number of rounds by nothing.
use sovereign_shadow_mev.Prelude.{
  ℕ, zero, suc, ◌-◌, ◌&&◌, Bool, not, Option, none, some, ltb, ◌==◌, if◌then◌else◌, Run, done,
  panic, ◌>>=◌,
}
use sovereign_shadow_mev.Prelude.Int.{ℤ, pos, ◌-ℤ◌}
use sovereign_shadow_mev.Uint.{add256, saturating_add256, from_limbs}
use sovereign_shadow_mev.V3Math.Delta.{unwrap_or}
use sovereign_shadow_mev.V3Math.Ratio.{unsigned_abs, get_sqrt_ratio_at_tick}
use sovereign_shadow_mev.V3Math.TickSearch.{get_tick_at_sqrt_ratio}
use sovereign_shadow_mev.V3Math.Bitmap.{TickBitmap, get_next_initialized_tick_precise}
use sovereign_shadow_mev.V3Math.SwapStep.{compute_swap_step}

abbrev pub min_sqrt_ratio : ℕ
min_sqrt_ratio = 4295128739

abbrev pub max_sqrt_ratio : ℕ
max_sqrt_ratio = from_limbs 0x5d951d5263988d25 0xefd1fc6a50648849 0xfffd8963 0

-- The variables of the loop.
pub record SwapState : Type 0 where
  pub amount_remaining : ℕ
  pub amount_calculated : ℕ
  pub sqrt_price_x96 : ℕ
  pub tick : ℤ
  pub liquidity : ℕ

-- What does not change in it; a tick's entry is its net liquidity.
pub record SwapPool : Type 0 where
  pub ticks : ℤ → Option ℤ
  pub tick_bitmap : TickBitmap
  pub zero_for_one : Bool
  pub fee : ℕ
  pub sqrt_price_limit : ℕ
  pub tick_spacing : ℕ

unfoldable pub cross_tick : SwapPool → ℤ → ℕ → ℕ
cross_tick pool next_tick liquidity = elim (pool.ticks next_tick) [
  | none ↦ liquidity
  | some liquidity_net ↦
      if pool.zero_for_one
      then liquidity - unsigned_abs liquidity_net
      else saturating_add256 liquidity (unsigned_abs liquidity_net)
]

unfoldable pub target_price : SwapPool → ℕ → ℕ
target_price pool next_sqrt_price =
    if pool.zero_for_one
    then (if ltb next_sqrt_price pool.sqrt_price_limit
        then pool.sqrt_price_limit
        else next_sqrt_price)
    else if ltb pool.sqrt_price_limit next_sqrt_price
    then pool.sqrt_price_limit
    else next_sqrt_price

-- The search never runs out of its rounds.
unfoldable pub next_tick_of : SwapPool → ℤ → Bool → ℕ → Run ℤ
next_tick_of pool next_tick at_tick price =
    if at_tick
    then done (if pool.zero_for_one then next_tick -ℤ pos 1 else next_tick)
    else (get_tick_at_sqrt_ratio price >>= λ found. elim found [ none ↦ panic | some t ↦ done t ])

-- One round of the loop.
unfoldable pub swap_round : SwapPool → SwapState → Run SwapState
swap_round pool s = do
  (next_tick, initialized) ←
      get_next_initialized_tick_precise s.tick pool.tick_spacing pool.zero_for_one pool.tick_bitmap
  next_sqrt_price ← get_sqrt_ratio_at_tick next_tick
  (step, rem) ←
      compute_swap_step s.sqrt_price_x96 (target_price pool next_sqrt_price) s.liquidity
        s.amount_remaining pool.fee pool.zero_for_one
  let at_tick = step.sqrt_price_next_x96 == next_sqrt_price
  tick ← next_tick_of pool next_tick at_tick step.sqrt_price_next_x96
  done (record {
    amount_remaining = rem;
    amount_calculated = add256 s.amount_calculated step.amount_out;
    sqrt_price_x96 = step.sqrt_price_next_x96;
    tick = tick;
    liquidity = if at_tick then cross_tick pool next_tick s.liquidity else s.liquidity;
  })

unfoldable pub swap_loop : ℕ → SwapPool → SwapState → Run (Option SwapState)
swap_loop zero pool s = done none
swap_loop (suc fuel) pool s =
    if not (s.amount_remaining == 0) && not (s.sqrt_price_x96 == pool.sqrt_price_limit)
    then (swap_round pool s >>= λ s'. swap_loop fuel pool s')
    else done (some s)

abbrev pub default_limit : Bool → ℕ
default_limit zero_for_one = if zero_for_one then add256 min_sqrt_ratio 1 else max_sqrt_ratio - 1

unfoldable pub simulate_swap_with_limit :
    ℕ
    → ℕ
    → ℤ
    → ℕ
    → (ℤ → Option ℤ)
    → TickBitmap
    → ℕ
    → Bool
    → ℕ
    → Option ℕ
    → ℕ
    → Run (Option (ℕ × ℕ × ℤ × ℕ))
simulate_swap_with_limit fuel sqrt_price_x96 tick liquidity ticks tick_bitmap amount_in zero_for_one
      fee sqrt_price_limit_x96 tick_spacing =
    swap_loop fuel
      (record {
        ticks = ticks;
        tick_bitmap = tick_bitmap;
        zero_for_one = zero_for_one;
        fee = fee;
        sqrt_price_limit = unwrap_or sqrt_price_limit_x96 (default_limit zero_for_one);
        tick_spacing = tick_spacing;
      })
      (record {
        amount_remaining = amount_in;
        amount_calculated = 0;
        sqrt_price_x96 = sqrt_price_x96;
        tick = tick;
        liquidity = liquidity;
      })
    >>= λ end. done (elim end [
      | none ↦ none
      | some s ↦ some (s.amount_calculated, s.sqrt_price_x96, s.tick, s.liquidity)
    ])
