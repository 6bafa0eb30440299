-- ===== src/Bidding/Bribe/Laws.antt =====
-- The offer stays between 5 and 99 percent.
use sovereign_shadow_mev.Prelude.{ℕ, ◌^◌, ◌≤◌, ◌<◌, ◌≡◌, arith, Bool, Returns, Run, done, panic}
use sovereign_shadow_mev.Constants.{max_bribe_pct}
use sovereign_shadow_mev.Models.{Opportunity}
use sovereign_shadow_mev.Bidding.Engine.{BiddingEngine}
use sovereign_shadow_mev.Bidding.Bribe.{
  decay_pressure, predator_bribe, tiered_bribe, calculate_bribe,
}

predator_bribe-range :
    (e : BiddingEngine) (opp : Opportunity)
    → (92 ≤ predator_bribe e opp) × (predator_bribe e opp ≤ 98)
unfolding predator_bribe
predator_bribe-range e opp = ground arith

tiered_bribe-range :
    (rises : ℕ → ℕ → Bool) (e : BiddingEngine) (opp : Opportunity) (later : ℕ)
    → (10 ≤ (tiered_bribe rises e opp later).0) × ((tiered_bribe rises e opp later).0 ≤ 99)
unfolding tiered_bribe
tiered_bribe-range rises e opp later = omega arith

decay_pressure-fee : (e : BiddingEngine) (now : ℕ) → (decay_pressure e now).base_fee ≡ e.base_fee
unfolding decay_pressure
decay_pressure-fee e now = ground arith

-- With a profit and a base fee of less than 128 bits, and whatever the test on the rise of the
-- heat, an offer is made without a panic, and it is at least 5 and at most 99 percent.
pub calculate_bribe-range :
    (rises : ℕ → ℕ → Bool) (e : BiddingEngine) (opp : Opportunity) (now later : ℕ)
    → opp.expected_profit < 2 ^ 128
    → e.base_fee < 2 ^ 128
    → Returns
        (calculate_bribe rises e opp now later)
        (λ (bribe, _). (5 ≤ bribe) × (bribe ≤ max_bribe_pct))
unfolding calculate_bribe
calculate_bribe-range rises e opp now later hp hf =
    let fee = decay_pressure-fee e now in
    let predator = predator_bribe-range (decay_pressure e now) opp in
    let tiered = tiered_bribe-range rises (decay_pressure e now) opp later in ground arith

-- The offer, if one is made.
abbrev pub OfferAtMost : ℕ → Run (ℕ × BiddingEngine) → Type 0
OfferAtMost most panic = Unit
OfferAtMost most (done (bribe, e)) = bribe ≤ most

-- An offer that is made, whatever the profit and the base fee, is at most 99 percent.
pub calculate_bribe-OfferAtMost :
    (rises : ℕ → ℕ → Bool) (e : BiddingEngine) (opp : Opportunity) (now later : ℕ)
    → OfferAtMost max_bribe_pct (calculate_bribe rises e opp now later)
unfolding calculate_bribe
calculate_bribe-OfferAtMost rises e opp now later =
    let predator = predator_bribe-range (decay_pressure e now) opp in
    let tiered = tiered_bribe-range rises (decay_pressure e now) opp later in ground arith
