-- ===== src/V3Math/SwapStep/Laws.antt =====
-- An exact-input step spends no more than it is given, and leaves the price between the current one
-- and the target.
use sovereign_shadow_mev.Prelude.{
  ◌⊎◌, ℕ, ◌+◌, ◌-◌, ◌*◌, ◌/◌, ◌%◌, ◌^◌, ◌≤◌, ◌<◌, ◌≡◌, refl, arith, ap, Bool, true, false, leb, ltb,
  ◌==◌, panic, Returns, inl, inr, Bool-cases, ◌∙◌, Run-cases, if◌then◌else◌, leb→le, sym, not, ◌&&◌,
}
use sovereign_shadow_mev.Prelude.Division.{ceil_div, ceil_div-le, mul-le}
use sovereign_shadow_mev.Uint.{sub256}
use sovereign_shadow_mev.V3Math.Arith.{mul_div_round_up}
use sovereign_shadow_mev.V3Math.Delta.{unwrap_or, get_amount0_delta, get_next_sqrt_price_from_input}
use sovereign_shadow_mev.V3Math.Delta.Laws.{
  round_up_fits, round_down_fits, amount0_up, get_amount0_delta-up, get_amount1_delta-up,
  next0_bounds, next1_bounds,
}
use sovereign_shadow_mev.V3Math.SwapStep.{
  SwapStepResult, is_positive, abs_i256, fee_complement, less_fee, full_amount_in, next_price,
  finish_step, compute_swap_step,
}

-- The inputs of an exact-input step that moves the price towards the target.
pub record StepInput (current target liquidity amount fee_pips : ℕ) (zero_for_one : Bool)
    : Type 0 where
  pub target_pos : 0 < target
  pub current_pos : 0 < current
  pub current_small : current < 2 ^ 160
  pub target_small : target < 2 ^ 160
  pub liquidity_pos : 0 < liquidity
  pub liquidity_small : liquidity < 2 ^ 128
  pub amount_small : amount < 2 ^ 160
  pub fee_small : fee_pips < 1_000_000
  pub amount_pos : 1_000_000 ≤ amount * (1_000_000 - fee_pips)
  pub towards : if zero_for_one then (target ≤ current) else (current ≤ target)

-- The price `nx` lies between the current one and the target.
abbrev pub Between : ℕ → ℕ → Bool → ℕ → Type 0
Between current target true nx = (target ≤ nx) × (nx ≤ current)
Between current target false nx = (current ≤ nx) × (nx ≤ target)

less_fee_value :
    (amount fee : ℕ)
    → amount < 2 ^ 160
    → fee < 1_000_000
    → less_fee amount fee ≡ amount * (1_000_000 - fee) / 1_000_000
unfolding less_fee
less_fee_value amount fee ha hf =
    let c : (1_000_000 + 2 ^ 32 - fee) % 2 ^ 32 ≡ 1_000_000 - fee = omega arith in
    let s : ltb amount (2 ^ 255) ≡ true = ground arith in
    rw (s, c)
      (round_down_fits amount (1_000_000 - fee) 1_000_000 amount (omega arith) (omega arith)
        (omega arith)
        (omega
          (arith, mul-le amount (1_000_000 - fee) amount 1_000_000 (omega arith) (omega arith)))
        (omega arith))

-- What the step pays without the fee, by exact arithmetic.
abbrev pub cost : ℕ → ℕ → Bool → ℕ → ℕ
cost current liquidity true nx = amount0_up nx current liquidity
cost current liquidity false nx = ceil_div (liquidity * (nx - current)) (2 ^ 96)

-- What an exact-input step promises of the result and of the rest that is handed back.
abbrev pub Spends : ℕ → ℕ → ℕ → Bool → SwapStepResult × ℕ → Type 0
Spends current target amount z step =
    Between current target z step.0.sqrt_price_next_x96
    × (step.0.amount_in + step.0.fee_amount ≤ amount)
    × (step.1 ≡ amount - (step.0.amount_in + step.0.fee_amount))
    × ((step.0.sqrt_price_next_x96 ≡ target) ⊎ (step.1 ≡ 0))

fee_share : (p a f k m : ℕ) → f + k ≡ m → p ≤ a → p * m ≤ a * k → p * f ≤ (a - p) * k
fee_share p a f k m e le h =
    let split : a ≡ p + (a - p) = omega arith in
    omega (arith, ap (λ (y : ℕ). p * y) e, ap (λ (y : ℕ). y * k) split)

module _ {current target liquidity amount fee : ℕ} where
  full_amount_in-cost :
      (z : Bool) (nx : ℕ)
      → StepInput current target liquidity amount fee z
      → Between current target z nx
      → full_amount_in current nx liquidity z ≡ cost current liquidity z nx
  unfolding full_amount_in
  full_amount_in-cost true nx v b =
      get_amount0_delta-up nx current liquidity (omega (arith, v.target_pos)) b.1 v.current_small
        v.liquidity_small
  full_amount_in-cost false nx v b =
      get_amount1_delta-up current nx liquidity b.0 (omega (arith, v.target_small))
        v.liquidity_small

  positive :
      (z : Bool) → StepInput current target liquidity amount fee z → is_positive amount ≡ true
  positive z v = ground arith

  magnitude :
      (z : Bool) → StepInput current target liquidity amount fee z → abs_i256 amount ≡ amount
  magnitude z v = ground arith

  less_fee_bounds :
      (z : Bool)
      → StepInput current target liquidity amount fee z
      → (0 < less_fee amount fee)
        × (less_fee amount fee * 1_000_000 ≤ amount * (1_000_000 - fee))
        × (less_fee amount fee ≤ amount)
  less_fee_bounds z v =
      let e = less_fee_value amount fee v.amount_small v.fee_small in
      let m = mul-le amount (1_000_000 - fee) amount 1_000_000 (omega arith) (omega arith) in
      omega (arith, v.amount_pos)

  at_target :
      (z : Bool) → StepInput current target liquidity amount fee z → Between current target z target
  at_target true v = (omega arith, v.towards)
  at_target false v = (v.towards, omega arith)

  partial_price :
      (z : Bool)
      → StepInput current target liquidity amount fee z
      → less_fee amount fee < cost current liquidity z target
      → Returns
          (get_next_sqrt_price_from_input current liquidity (less_fee amount fee) z)
          (λ nx. Between current target z nx × (cost current liquidity z nx ≤ less_fee amount fee))
  partial_price true v short =
      let b = less_fee_bounds true v in
      (next0_bounds current liquidity (less_fee amount fee) target v.target_pos v.towards
        v.current_small v.liquidity_pos v.liquidity_small b.0 (omega (arith, v.amount_small)) short)
  partial_price false v short =
      let b = less_fee_bounds false v in
      (next1_bounds current liquidity (less_fee amount fee) target v.towards v.target_small
        v.liquidity_pos v.liquidity_small (omega (arith, v.amount_small)) short)

  next_price-Between :
      (z : Bool)
      → StepInput current target liquidity amount fee z
      → Returns
          (next_price current target liquidity amount fee z)
          (λ nx. Between current target z nx × (cost current liquidity z nx ≤ less_fee amount fee))
  unfolding next_price
  next_price-Between z v =
      let e = full_amount_in-cost z target v (at_target z v) in
      rw (positive z v)
        (elim (Bool-cases (leb (full_amount_in current target liquidity z) (less_fee amount fee))) [
          | inl enough ↦ rw enough (
            at_target z v,
            omega (
              arith,
              e,
              leb→le (full_amount_in current target liquidity z) (less_fee amount fee) enough,
            ),
          )
          | inr short ↦ rw short (partial_price z v (ground (arith, e)))
        ])

  -- What the fee adds stays within the amount.
  fee_fits :
      (z : Bool) (paid : ℕ)
      → StepInput current target liquidity amount fee z
      → paid ≤ less_fee amount fee
      → (unwrap_or (mul_div_round_up paid fee (fee_complement fee)) 0 ≤ amount - paid)
  fee_fits z paid v h =
      let b = less_fee_bounds z v in
      let c : fee_complement fee ≡ 1_000_000 - fee = omega arith in
      let need : paid * fee ≤ (amount - paid) * (1_000_000 - fee) =
        fee_share paid amount fee (1_000_000 - fee) 1_000_000 (omega (arith, v.fee_small))
          (omega arith) (omega arith) in
      rw
        (
          c,
          round_up_fits paid fee (1_000_000 - fee) (amount - paid) (omega arith) (omega arith)
              (omega arith) (omega arith) need (omega arith),
        )
        (ceil_div-le (amount - paid) (paid * fee) (1_000_000 - fee) (omega arith) need)

  -- The fee of `finish_step`, on both of its branches.
  finish_fee :
      (z : Bool) (paid : ℕ) (max : Bool)
      → StepInput current target liquidity amount fee z
      → paid ≤ less_fee amount fee
      → let f =
          (if true && not max
            then sub256 amount paid
            else unwrap_or (mul_div_round_up paid fee (fee_complement fee)) 0) in
        (paid + f ≤ amount) × (max ≡ false → paid + f ≡ amount)
  finish_fee z paid true v h =
      let b = less_fee_bounds z v in (omega (arith, fee_fits z paid v h), λ e. cc)
  finish_fee z paid false v h =
      let b = less_fee_bounds z v in
      (omega (arith, v.amount_small), λ e. omega (arith, v.amount_small))

  rest :
      (z : Bool) (total : ℕ)
      → StepInput current target liquidity amount fee z
      → total ≤ amount
      → sub256 amount (total % 2 ^ 256) ≡ amount - total
  rest z total v h = omega (arith, v.amount_small)

  finish-Spends :
      (z : Bool) (nx : ℕ)
      → StepInput current target liquidity amount fee z
      → Between current target z nx
      → cost current liquidity z nx ≤ less_fee amount fee
      → Spends current target amount z (finish_step current target liquidity amount fee z nx)
  unfolding finish_step
  finish-Spends z nx v b h = elim (Bool-cases (nx == target)) [
    | inl max ↦
        let e : nx ≡ target = ground arith in
        let paid =
          ap (λ t. full_amount_in current t liquidity z) (sym e) ∙ full_amount_in-cost z nx v b in
        let f = finish_fee z (cost current liquidity z nx) true v h in
        rw (positive z v, max, paid)
          (
            b,
            f.0,
            rest z
                (cost current liquidity z nx
                  + unwrap_or
                      (mul_div_round_up (cost current liquidity z nx) fee (fee_complement fee)) 0)
                v f.0,
            inl e,
          )
    | inr less ↦
        let f = finish_fee z (cost current liquidity z nx) false v h in
        let paid : ℕ = cost current liquidity z nx in
        let total : ℕ = paid + sub256 amount paid in
        let whole : total ≡ amount = f.1 refl in
        let back : sub256 amount (total % 2 ^ 256) ≡ amount - total = rest z total v f.0 in
        rw (positive z v, less, full_amount_in-cost z nx v b, magnitude z v)
          (b, f.0, back, inr (back ∙ omega arith))
  ]

  -- For positive prices below 2 ^ 160 with the target in the direction of the swap, a positive
  -- liquidity below 2 ^ 128, a fee below 10 ^ 6 and an input below 2 ^ 160 that the fee does not
  -- take whole, an exact-input step does not panic, moves the price towards the target and not past
  -- it, spends with its fee no more than the input, hands back exactly the rest, and ends at the
  -- target or hands back nothing.
  pub compute_swap_step-exact_input :
      (z : Bool)
      → StepInput current target liquidity amount fee z
      → Returns
          (compute_swap_step current target liquidity amount fee z)
          (Spends current target amount z)
  unfolding compute_swap_step
  compute_swap_step-exact_input z v =
      elim (Run-cases (next_price current target liquidity amount fee z)) [
        | inr e ↦ absurd (rw e at (next_price-Between z v))
        | inl (nx, e) ↦
            let b = rw e at (next_price-Between z v) in rw e (finish-Spends z nx v b.0 b.1)
      ]

-- For a positive input of token 0 below 2 ^ 160 that the fee takes whole, while the range to the
-- target still costs something, the step divides by zero and panics.
pub compute_swap_step-panic :
    (current target liquidity amount fee : ℕ)
    → 0 < amount
    → amount < 2 ^ 160
    → fee < 1_000_000
    → amount * (1_000_000 - fee) < 1_000_000
    → 0 < get_amount0_delta target current liquidity true
    → compute_swap_step current target liquidity amount fee true ≡ panic
unfolding compute_swap_step next_price full_amount_in get_next_sqrt_price_from_input
compute_swap_step-panic current target liquidity amount fee pa ba bf tiny away =
    let none_left : less_fee amount fee ≡ 0 = less_fee_value amount fee ba bf ∙ omega arith in
    let pos : is_positive amount ≡ true = ground arith in
    let short : leb (get_amount0_delta target current liquidity true) 0 ≡ false = ground arith in
    rw (pos, none_left, short)
