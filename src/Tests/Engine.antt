-- ===== src/Tests/Engine.antt =====
-- The laws of the mirror, the breaker, the bidding and the sweep on small states.
use sovereign_shadow_mev.Prelude.{
  max, ◌/◌, ◌-◌, ◌⊎◌, ◌&&◌, ◌+◌, ◌-◌, ◌*◌, ◌^◌, ◌≤◌, ◌<◌, ◌≡◌, refl, arith, true, false, ◌||◌, some,
  none, [], ◌∷◌, contains, ltb, leb, ◌==◌, if◌then◌else◌, done, Returns,
}
use sovereign_shadow_mev.Prelude.Assoc.{lookup, contains_key}
use sovereign_shadow_mev.Constants.{core_pools, max_bribe_pct, min_builder_tip_wei}
use sovereign_shadow_mev.Models.{Opportunity, default_opportunity}
use sovereign_shadow_mev.Mirror.Pools.{StateMirror, PoolState, default_pool, new_mirror}
use sovereign_shadow_mev.Mirror.Blocks.{verify_state_freshness, sync_blocks}
use sovereign_shadow_mev.Mirror.Blocks.Laws.{misses, sync_blocks-fresh}
use sovereign_shadow_mev.Mirror.Codes.{
  both_known, is_poisoned, fetch_and_cache_bytecode, fetch_and_cache_bytecode-apart,
}
use sovereign_shadow_mev.Mirror.Updates.{get_pool_data, update_v2_reserves}
use sovereign_shadow_mev.Mirror.Updates.Laws.{get_pool_data-update_v2_reserves}
use sovereign_shadow_mev.Mirror.Prune.{prune_stale_pools, prune_stale_pools-lookup}
use sovereign_shadow_mev.Breaker.Switch.{
  FailureType, CircuitBreaker, new_breaker, is_open, record_failure, record_failures,
  record_success,
}
use sovereign_shadow_mev.Breaker.Switch.Laws.{
  gas_failures, record_failures-pause, record_failures-cooldown,
}
use sovereign_shadow_mev.Bidding.Engine.{new_engine}
use sovereign_shadow_mev.Bidding.Bribe.{calculate_bribe}
use sovereign_shadow_mev.Bidding.Bribe.Laws.{calculate_bribe-range}
use sovereign_shadow_mev.Bidding.Fee.{suggest_priority_fee, suggest_priority_fee-share}
use sovereign_shadow_mev.Providers.{WsProviderPool, new_pool, next_provider}
use sovereign_shadow_mev.Providers.Laws.{IsReady, next_provider-IsReady}
use sovereign_shadow_mev.Profit.Sweep.{
  ProfitManager, Network, handle_profit, sum_values, survival_threshold, handle_profit-reserve,
  handle_profit-stuck,
}

-- A mirror with one pool at address 7, last updated in block 100, in block 700.
abbrev pool_7 : PoolState
pool_7 = record (default_pool 1000) { reserves0 = 50; reserves1 = 70; last_updated_block = 100 }

abbrev mirror_7 : StateMirror
mirror_7 = record (new_mirror [] ((7, pool_7) ∷ [])) { current_block = 700 }

prune_stale_pools-lookup_example : lookup 7 (prune_stale_pools mirror_7 5000).pools ≡ (
    if contains core_pools 7 || (100 == 0) || ltb (700 - 100) 500 || ltb (5000 - 1000) 1800
    then some pool_7
    else none)
unfolding lookup
prune_stale_pools-lookup_example = prune_stale_pools-lookup mirror_7 5000 7 (tt, tt) (omega arith)

get_pool_data-update_v2_reserves_example :
    ((get_pool_data (update_v2_reserves mirror_7 7 51 69) 7 2000).0
      ≡ some (record pool_7 {
        reserves0 = 51;
        reserves1 = 69;
        last_updated_block = 700;
        last_access_ts = 2000;
      }))
    × ((update_v2_reserves mirror_7 7 51 69).dirty_flag ≡ true)
unfolding lookup
get_pool_data-update_v2_reserves_example = get_pool_data-update_v2_reserves mirror_7 7 7 51 69 2000

fetch_and_cache_bytecode-apart_example :
    both_known (fetch_and_cache_bytecode mirror_7 9 (some (0xff ∷ []))) 9 ≡ false
unfolding is_poisoned contains_key
fetch_and_cache_bytecode-apart_example =
    fetch_and_cache_bytecode-apart mirror_7 9 (some (0xff ∷ [])) (λ a. refl) 9

-- The block 701 follows, and the block 702 is missed.
abbrev two_blocks : StateMirror
two_blocks = sync_blocks mirror_7 ((701, 900, 4990) ∷ (703, 1000, 5000) ∷ [])

sync_blocks-fresh_example :
    (two_blocks.dirty_flag
      ≡ (mirror_7.dirty_flag || misses 700 ((701, 900, 4990) ∷ (703, 1000, 5000) ∷ [])))
    × (two_blocks.gas_state.next_base_fee ≡ 1000 + 1000 / 8)
    × (verify_state_freshness two_blocks 5005 ≡ ((5000 == 0) || leb 5005 (5000 + 10)))
sync_blocks-fresh_example =
    sync_blocks-fresh mirror_7 ((701, 900, 4990) ∷ []) 703 1000 5000 5005 (omega arith)
      (omega arith, (omega arith, tt)) (omega arith)

record_failures-pause_example :
    (record_failures
      (new_breaker 3 60)
      ((FailureType.revert, 10) ∷ (FailureType.slippage, 11) ∷ [])).global_pause
    ≡ ltb 20 2
record_failures-pause_example =
    record_failures-pause 3 60 ((FailureType.revert, 10) ∷ (FailureType.slippage, 11) ∷ [])
      (omega arith)

-- A failure for lack of gas after a failed trade.
abbrev failed_breaker : CircuitBreaker
failed_breaker =
    record_failure (record_failures (new_breaker 2 60) ((FailureType.revert, 90) ∷ []))
      FailureType.out_of_gas 100

record_failures-cooldown_example :
    (is_open failed_breaker 130 ≡ (
      leb 2 (1 + 1)
      && ltb (130 - 100) (
          60 * (1 + gas_failures ((FailureType.out_of_gas, 100) ∷ (FailureType.revert, 90) ∷ [])))))
    × (is_open (record_success failed_breaker) 130 ≡ false)
record_failures-cooldown_example =
    record_failures-cooldown 2 60 ((FailureType.revert, 90) ∷ []) FailureType.out_of_gas 100 130
      (omega arith) (omega arith) (omega arith)

-- A profit of 0.01 ether, with 150000 gas estimated.
abbrev small_chance : Opportunity
small_chance = record default_opportunity {
  expected_profit = 10 ^ 16;
  gas_estimate = 150_000;
  trigger_gas_price = some (10 ^ 9);
  is_whale_trigger = true;
}

calculate_bribe-range_example :
    Returns
      (calculate_bribe (λ a b. ltb b a) (new_engine (10 ^ 7) 0) small_chance 1 2)
      (λ (bribe, _). (5 ≤ bribe) × (bribe ≤ max_bribe_pct))
calculate_bribe-range_example =
    calculate_bribe-range (λ a b. ltb b a) (new_engine (10 ^ 7) 0) small_chance 1 2 (omega arith)
      (omega arith)

suggest_priority_fee-share_example :
    Returns (suggest_priority_fee (new_engine (10 ^ 7) 0) small_chance 5) (λ fee.
      (min_builder_tip_wei ≤ fee)
      × (fee * (150_000 * 2) ≤ max (10 ^ 16) (min_builder_tip_wei * (150_000 * 2)))
      × ((10 ^ 9 < fee) ⊎ (10 ^ 16 < (fee + 1) * (150_000 * 2))))
suggest_priority_fee-share_example =
    suggest_priority_fee-share (new_engine (10 ^ 7) 0) small_chance 5 (10 ^ 9) refl (omega arith)
      (omega arith) (omega arith) (omega arith)

abbrev idle_manager : ProfitManager
idle_manager = record {
  gas_reserve_threshold = 10 ^ 15;
  compounding_target = some 99;
  total_profit_harvested = 0;
  daily_profit = 0;
  running = false;
  nonce = 4;
}

abbrev open_network : Network
open_network = record {
  balance = some (10 ^ 18);
  l1_fee = 0;
  gas_price = 10 ^ 6;
  vault_accepts = true;
}

abbrev silent_network : Network
silent_network = record open_network { balance = none }

handle_profit-reserve_example :
    Returns (handle_profit idle_manager open_network (10 ^ 16)) (λ (ok, sent, after).
      (ok ≡ true)
      × (after.running ≡ false)
      × (sum_values sent ≤ 10 ^ 18 - survival_threshold idle_manager open_network))
handle_profit-reserve_example =
    handle_profit-reserve idle_manager open_network (10 ^ 18) (10 ^ 16) refl refl refl (omega arith)
      (omega arith)

handle_profit-stuck_example :
    Returns (handle_profit idle_manager silent_network (10 ^ 16)) (λ (ok, sent, after).
      (ok ≡ false) × (handle_profit after open_network (10 ^ 16) ≡ done (true, [], after)))
handle_profit-stuck_example =
    handle_profit-stuck idle_manager silent_network open_network (10 ^ 16) (10 ^ 16) refl refl
      (omega arith)

-- Two connections, the first one blocked until second 500.
abbrev half_blocked : WsProviderPool
half_blocked = record (new_pool 2) { health = 500 ∷ 0 ∷ [] }

next_provider-IsReady_example : Returns (next_provider 100 half_blocked) (IsReady 100 half_blocked)
next_provider-IsReady_example =
    next_provider-IsReady 100 1 0 half_blocked (omega arith, refl, refl) (omega arith) (omega arith)
      refl (omega arith)
