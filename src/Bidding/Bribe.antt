-- ===== src/Bidding/Bribe.antt =====
-- src/bidding_engine.rs: `calculate_bribe`.
pub mod Laws
use sovereign_shadow_mev.Prelude.{
  ℕ, ◌+◌, ◌-◌, ◌*◌, ◌/◌, ◌%◌, ◌^◌, Option, none, some, Bool, true, false, ◌||◌, ◌&&◌, List, [], ◌∷◌,
  min, max, ltb, leb, ◌==◌, if◌then◌else◌, Run, done, panic,
}
use sovereign_shadow_mev.Prelude.Assoc.{lookup}
use sovereign_shadow_mev.Constants.{
  token_virtual, token_luna, token_ai16z, bidding_tiers, max_bribe_pct, micro_profit_threshold_wei,
}
use sovereign_shadow_mev.Models.{Opportunity, Hop}
use sovereign_shadow_mev.Bidding.Engine.{BiddingEngine, fetch_add, is_predator_active}

-- Pressure falls by one once its last change is more than 60 whole seconds ago.
unfoldable pub decay_pressure : BiddingEngine → ℕ → BiddingEngine
decay_pressure e now =
    if ltb 60 ((now - e.last_pressure_update) / 10 ^ 9)
    then record e { predator_pressure = e.predator_pressure - 1; last_pressure_update = now }
    else e

abbrev is_ai_token : ℕ → Bool
is_ai_token t = (t == token_virtual) || (t == token_luna) || (t == token_ai16z)

unfoldable pub path_contains_ai : List Hop → Bool
path_contains_ai [] = false
path_contains_ai (hop ∷ hops) =
    is_ai_token hop.token_in || is_ai_token hop.token_out || path_contains_ai hops

-- The loop over the tiers stops at the first threshold above the profit.
unfoldable pub tier_bribe : List (ℕ × ℕ) → ℕ → ℕ → ℕ
tier_bribe [] profit bribe = bribe
tier_bribe ((threshold, pct) ∷ tiers) profit bribe =
    let rest = tier_bribe tiers profit pct in if leb threshold profit then rest else bribe

-- The counts of the sender, wins first, decide between two high offers.
unfoldable pub predator_bribe : BiddingEngine → Opportunity → ℕ
predator_bribe e opp = elim opp.trigger_sender [
  | none ↦ min 92 max_bribe_pct
  | some sender ↦ elim (lookup sender e.competitor_history) [
    | none ↦ min 92 max_bribe_pct
    | some (wins, losses) ↦ if ltb losses wins then min 98 max_bribe_pct else min 92 max_bribe_pct
  ]
]

-- An offer that won less than 60 whole seconds ago is averaged in.
abbrev blend : Option (ℕ × ℕ) → ℕ → ℕ → ℕ
blend none later bribe = bribe
blend (some (ts, lb)) later bribe =
    if ltb ((later - ts) / 10 ^ 9) 60 then (bribe + lb) % 2 ^ 32 / 2 else bribe

-- `rises current prev` is the test on floating point numbers `current as f64 / prev as f64 - 1.0 > 0.15`.
module _ (rises : ℕ → ℕ → Bool) where
  -- The offer for a profit that is not tiny, and the new heat score; `later` is the second clock reading.
  unfoldable pub tiered_bribe : BiddingEngine → Opportunity → ℕ → ℕ × ℕ
  tiered_bribe e opp later =
      let streak = e.consecutive_losses in
      let tier = tier_bribe bidding_tiers opp.expected_profit e.default_bribe in
      let after_losses =
        if ltb 2 streak
        then min ((tier + streak % 2 ^ 32 * 8 % 2 ^ 32) % 2 ^ 32) (max_bribe_pct - 9)
        else tier in
      let current_heat =
        fetch_add (e.predator_pressure * 15) (e.base_fee / 1_000_000_000 % 2 ^ 64) in
      let hot = ltb 0 e.last_heat_score && rises current_heat e.last_heat_score in
      let mafia = if hot || ltb 5 streak then max after_losses 94 else after_losses in
      let whale = if opp.is_whale_trigger then min (mafia + 10) max_bribe_pct else mafia in
      let blended = blend e.last_success later whale in
      (max (min blended max_bribe_pct) 10, current_heat)

  -- A profit or a base fee of more than 128 bits panics where it is converted.
  unfoldable pub calculate_bribe : BiddingEngine → Opportunity → ℕ → ℕ → Run (ℕ × BiddingEngine)
  calculate_bribe engine opp now later =
      let e = decay_pressure engine now in
      if path_contains_ai opp.path.hops
      then done (min 95 max_bribe_pct, e)
      else if is_predator_active opp
      then done (
        predator_bribe e opp,
        record e {
          predator_hits = fetch_add e.predator_hits 1;
          predator_pressure = fetch_add e.predator_pressure 1;
          last_pressure_update = now;
        },
      )
      else if leb (2 ^ 128) opp.expected_profit
      then panic
      else if ltb opp.expected_profit micro_profit_threshold_wei
      then done (5, e)
      else if leb (2 ^ 128) e.base_fee
      then panic
      else done (
        (tiered_bribe e opp later).0,
        record e { last_heat_score = (tiered_bribe e opp later).1 },
      )
