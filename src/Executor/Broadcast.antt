-- ===== src/Executor/Broadcast.antt =====
-- src/flash_loan_executor.rs: the loop that sends the bundle, and once more for the next block.
pub mod Laws
use sovereign_shadow_mev.Prelude.{
  ℕ, zero, suc, ◌+◌, ◌-◌, ◌%◌, ◌^◌, Bool, true, false, ◌||◌, ◌&&◌, Option, none, some, List, [],
  ◌∷◌, ltb, if◌then◌else◌,
}
use sovereign_shadow_mev.Models.{Opportunity, Bundle, new_bundle, set_bribe}
use sovereign_shadow_mev.Models.Errors.{Attempt, err, ok, no_relay_accepted}
use sovereign_shadow_mev.Breaker.Switch.{FailureType}
use sovereign_shadow_mev.Breaker.Switch
use sovereign_shadow_mev.Bidding.Engine
use sovereign_shadow_mev.Executor.State.{FlashLoanExecutor, RelayResult, accepted, rejected}
use sovereign_shadow_mev.Executor.Pricing.{Order}

-- `success_count > 0`
unfoldable pub any_accepted : List RelayResult → Bool
any_accepted [] = false
any_accepted (accepted ∷ results) = true
any_accepted (rejected stale shield ∷ results) = any_accepted results

-- A test on the text of all the results: some message passes it.
unfoldable pub any_stale : List RelayResult → Bool
any_stale [] = false
any_stale (accepted ∷ results) = any_stale results
any_stale (rejected stale shield ∷ results) = stale || any_stale results

unfoldable pub any_shield : List RelayResult → Bool
any_shield [] = false
any_shield (accepted ∷ results) = any_shield results
any_shield (rejected stale shield ∷ results) = shield || any_shield results

abbrev pub max_resilience_attempts : ℕ
max_resilience_attempts = 2

unfoldable pub bundle_for : Order → ℕ → Bundle
bundle_for order target_block =
    set_bribe
      (record new_bundle { target_block = target_block; transactions = order.signed_rlp ∷ [] })
      order.bribe_wei

-- An acceptance, at the time `now_ns`.
unfoldable pub on_accepted : FlashLoanExecutor → Opportunity → Order → ℕ → FlashLoanExecutor
on_accepted s opp order now_ns = record s {
  bidding_engine = Engine.record_success s.bidding_engine opp order.bribe_pct now_ns;
  circuit_breaker = Switch.record_success s.circuit_breaker;
}

-- The last rejection, at the time `now`.
unfoldable pub on_rejected :
    FlashLoanExecutor → Opportunity → List RelayResult → ℕ → FlashLoanExecutor
on_rejected s opp results now = record s {
  bidding_engine = Engine.record_failure s.bidding_engine opp;
  circuit_breaker =
      Switch.record_failure s.circuit_breaker
        (if any_shield results then FailureType.slippage else FailureType.other) now;
}

-- What the loop ends with: the result, the bundles that were sent, in order, and the executor.
abbrev pub Sent : Type 0
Sent = Attempt ℕ × List Bundle × FlashLoanExecutor

abbrev pub sent_before : Bundle → Option Sent → Option Sent
sent_before bundle none = none
sent_before bundle (some (result, bundles, s)) = some (result, bundle ∷ bundles, s)

module _ (broadcast : ℕ → Bundle → List RelayResult) (opp : Opportunity) (order : Order)
    (now now_ns : ℕ) where
  -- One turn of the `loop`, on fuel; `none` is a loop that has not ended yet.
  unfoldable pub broadcast_loop : ℕ → ℕ → ℕ → FlashLoanExecutor → Option Sent
  broadcast_loop zero attempts target_block s = none
  broadcast_loop (suc fuel) attempts target_block s =
      let bundle = bundle_for order target_block in
      let results = broadcast attempts bundle in
      let again = broadcast_loop fuel (attempts + 1) ((target_block + 1) % 2 ^ 64) s in
      if any_accepted results
      then some (ok order.tx_hash, bundle ∷ [], on_accepted s opp order now_ns)
      else if any_stale results && ltb attempts (max_resilience_attempts - 1)
      then sent_before bundle again
      else some (err no_relay_accepted, bundle ∷ [], on_rejected s opp results now)
