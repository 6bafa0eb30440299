-- ===== src/Bidding/Fee.antt =====
-- src/bidding_engine.rs: `suggest_priority_fee`.
use sovereign_shadow_mev.Prelude.{
  none, ℕ, ◌*◌, ◌/◌, ◌^◌, ◌≤◌, ◌<◌, ◌≡◌, refl, arith, some, Bool, false, ◌||◌, min, max, ltb, ◌==◌,
  if◌then◌else◌, Run, done, ◌>>=◌, div_run, Returns, Bool-cases, inl, inr, ◌⊎◌, ◌+◌,
}
use sovereign_shadow_mev.Prelude.Division.{div-mul-le, lt-div-mul, mul-le}
use sovereign_shadow_mev.Constants.{min_builder_tip_wei}
use sovereign_shadow_mev.Uint.{mul256, saturating_add256}
use sovereign_shadow_mev.Models.{Opportunity}
use sovereign_shadow_mev.Bidding.Engine.{BiddingEngine}

-- A hot market or a streak of losses.
abbrev pub is_mafia : BiddingEngine → Bool
is_mafia e = ltb 50 e.last_heat_score || ltb 3 e.consecutive_losses

-- The fee before the congestion multiplier. The only chain is Base.
unfoldable pub overshoot : BiddingEngine → Opportunity → ℕ → Run ℕ
overshoot e opp current_priority = elim opp.trigger_gas_price [
  | none ↦ done current_priority
  | some comp_gas ↦
      div_run opp.expected_profit (mul256 (max opp.gas_estimate 1) (if is_mafia e then 1 else 2))
      >>= λ max_allowed. done (
          min (saturating_add256 comp_gas (if is_mafia e then 4_000_000_000 else 2_000_000_000))
            max_allowed)
]

unfoldable pub suggest_priority_fee : BiddingEngine → Opportunity → ℕ → Run ℕ
suggest_priority_fee e opp current_priority =
    let multiplier = if ltb 500_000_000 e.base_fee then 120 else 100 in
    if ltb 100_000_000 e.base_fee
    then done 0
    else overshoot e opp current_priority >>= λ suggested.
        if ltb 1_000_000_000 e.base_fee
        then done 0
        else done (max (mul256 suggested multiplier / 100) min_builder_tip_wei)

-- Whom the fee may cost: the whole profit in a hot market or after losses, half of it otherwise.
abbrev pub share : BiddingEngine → ℕ
share e = if is_mafia e then 1 else 2

abbrev raise : BiddingEngine → ℕ
raise e = if is_mafia e then 4_000_000_000 else 2_000_000_000

-- Where a competitor's price is known, the fee before the multiplier is there, as the divisor is not 0.
overshoot-done :
    (e : BiddingEngine) (opp : Opportunity) (p comp : ℕ)
    → opp.trigger_gas_price ≡ some comp
    → 0 < opp.gas_estimate
    → opp.gas_estimate < 2 ^ 200
    → overshoot e opp p
      ≡ done (
          min
            (saturating_add256 comp (raise e))
            (opp.expected_profit / (opp.gas_estimate * share e)))
unfolding overshoot
overshoot-done e opp p comp busy gas fits =
    let one : max opp.gas_estimate 1 ≡ opp.gas_estimate = ground arith in
    elim (Bool-cases (is_mafia e)) [
      | inl m ↦
          let wide : mul256 opp.gas_estimate 1 ≡ opp.gas_estimate * 1 = omega arith in
          let t : (opp.gas_estimate * 1 == 0) ≡ false = ground arith in
          rw (busy, m, one, wide, t) refl
      | inr m ↦
          let wide : mul256 opp.gas_estimate 2 ≡ opp.gas_estimate * 2 = omega arith in
          let t : (opp.gas_estimate * 2 == 0) ≡ false = ground arith in
          rw (busy, m, one, wide, t) refl
    ]

-- The larger one of a fee and a floor costs at most the larger one of the two costs.
max-cost : (x tip d p : ℕ) → x * d ≤ p → max x tip * d ≤ max p (tip * d)
max-cost x tip d p h = elim (Bool-cases (ltb x tip)) [
  | inl below ↦ let e : max x tip ≡ tip = ground arith in rw e (omega arith)
  | inr above ↦ let e : max x tip ≡ x = ground arith in rw e (omega arith)
]

-- A capped fee that is not more than the competitor's is at the cap.
outbids-or-cap :
    (comp more p d fee : ℕ)
    → 0 < more
    → 0 < d
    → p < 2 ^ 240
    → min (saturating_add256 comp more) (p / d) ≤ fee
    → (comp < fee) ⊎ (p < (fee + 1) * d)
outbids-or-cap comp more p d fee pm pd small h = elim (Bool-cases (ltb comp fee)) [
  | inl beats ↦ inl (ground arith)
  | inr not_more ↦
      let paid = div-mul-le p d in
      let next = lt-div-mul p d pd in
      let few = mul-le (p / d) 1 (p / d) d (omega arith) (omega arith) in
      let cheap : p / d < 2 ^ 240 = omega arith in
      let below : p / d ≤ fee = ground arith in
      inr (omega (arith, next, mul-le (p / d) d fee d below (omega arith)))
]

-- With a base fee of at most 0.1 gwei, a competitor whose gas price is known, a gas estimate that
-- is positive and below 2 ^ 200 and a profit below 2 ^ 240, a fee is suggested; it is at least the
-- minimal tip, it costs for the estimated gas no more than the larger one of the tip and the
-- profit's share (half of the profit, or all of it in a hot market or after losses), and it is more
-- than the competitor's price, or one more wei for each unit of gas would cost more than that
-- share.
pub suggest_priority_fee-share :
    (e : BiddingEngine) (opp : Opportunity) (current_priority comp : ℕ)
    → opp.trigger_gas_price ≡ some comp
    → e.base_fee ≤ 100_000_000
    → 0 < opp.gas_estimate
    → opp.gas_estimate < 2 ^ 200
    → opp.expected_profit < 2 ^ 240
    → Returns (suggest_priority_fee e opp current_priority) (λ fee.
      (min_builder_tip_wei ≤ fee)
      × (fee * (opp.gas_estimate * share e)
          ≤ max opp.expected_profit (min_builder_tip_wei * (opp.gas_estimate * share e)))
      × ((comp < fee) ⊎ (opp.expected_profit < (fee + 1) * (opp.gas_estimate * share e))))
unfolding suggest_priority_fee
suggest_priority_fee-share e opp current_priority comp busy low gas fits small =
    let d = opp.gas_estimate * share e in
    let pd : 0 < d = ground arith in
    let cap = opp.expected_profit / d in
    let x = min (saturating_add256 comp (raise e)) cap in
    let e1 = overshoot-done e opp current_priority comp busy gas fits in
    let t1 : ltb 100_000_000 e.base_fee ≡ false = ground arith in
    let t2 : ltb 1_000_000_000 e.base_fee ≡ false = ground arith in
    let t3 : ltb 500_000_000 e.base_fee ≡ false = ground arith in
    let paid = div-mul-le opp.expected_profit d in
    let capped : x ≤ cap = ground arith in
    let cost = mul-le x d cap d capped (omega arith) in
    let cheap = mul-le cap 1 cap d (omega arith) (omega arith) in
    let exact : mul256 x 100 / 100 ≡ x = omega arith in
    let fee = max x min_builder_tip_wei in
    let reached : x ≤ fee = ground arith in
    rw (t1, e1, t2, t3, exact)
      (
        ground arith,
        max-cost x min_builder_tip_wei d opp.expected_profit (omega arith),
        outbids-or-cap comp (raise e) opp.expected_profit d fee (ground arith) pd small reached,
      )
