-- ===== src/Tests/Sending.antt =====
-- The laws of the executor on a small machine.
use sovereign_shadow_mev.Prelude.{
  ℕ, ◌+◌, ◌*◌, ◌^◌, refl, arith, true, false, none, some, [], ◌∷◌, ◌/◌, ltb, ◌==◌, if◌then◌else◌,
}
use sovereign_shadow_mev.Constants.{token_weth}
use sovereign_shadow_mev.Models.{Opportunity, default_opportunity, default_hop}
use sovereign_shadow_mev.Mirror.Pools.{new_mirror}
use sovereign_shadow_mev.Breaker.Switch.{new_breaker, is_open, total_failures}
use sovereign_shadow_mev.Bidding.Engine.{new_engine}
use sovereign_shadow_mev.Tests.Execution.{counting_machine}
use sovereign_shadow_mev.Executor.State.{
  FlashLoanExecutor, Outside, accepted, rejected, collides, is_occupied,
}
use sovereign_shadow_mev.Executor.Pricing.{Order}
use sovereign_shadow_mev.Executor.Broadcast.{broadcast_loop}
use sovereign_shadow_mev.Executor.Broadcast.Laws.{HasEnded, broadcast_loop-HasEnded}
use sovereign_shadow_mev.Executor.Pipeline.{simulate_and_execute}
use sovereign_shadow_mev.Executor.Pipeline.Laws.{
  IsSafe, locked_state, selected_from, simulate_and_execute-IsSafe,
}
use sovereign_shadow_mev.Executor.Pipeline.Locks.{IsRefusedAfter, simulate_and_execute-IsRefused}

-- The relays take the bundle on the second attempt.
abbrev slow_relays : Outside ℕ
slow_relays = record {
  evm = counting_machine;
  random = λ lender branch i. i + 100;
  check_addresses = λ token. (888, 999);
  now = 1000;
  first_offer = (1, 2);
  second_offer = (3, 4);
  rises = λ a b. ltb b a;
  fetched = λ address. none;
  abi_encode = λ payload. payload;
  tenth_more = λ gas. gas + gas / 10;
  signer = 500;
  sign = λ request. some (9 ∷ 9 ∷ [], 42);
  broadcast = λ attempt bundle.
      if attempt == 0 then rejected true false ∷ [] else accepted ∷ rejected false false ∷ [];
}

abbrev executor_1 : FlashLoanExecutor
executor_1 = record {
  contract_address = 400;
  min_profit_wei = 1;
  has_builder = true;
  current_block = 7;
  next_nonce = 3;
  address = 500;
  circuit_breaker = record (new_breaker 3 60) { current_balance = 10 ^ 18 };
  mirror = new_mirror [] [];
  bidding_engine = new_engine 0 0;
  l1_calc = record {
    base_fee_scalar = 0;
    blob_fee_scalar = 0;
    l1_base_fee = 0;
    l1_blob_fee = 0;
    decimals = 0;
    last_updated = 0;
  };
  occupied_pools = [];
  vetted_tokens = [];
}

abbrev one_hop : Opportunity
one_hop = record default_opportunity {
  path = record {
    hops = record default_hop { pool_address = 77; token_out = token_weth } ∷ [];
    hash = 0;
    total_gas = 0;
  };
  input_amount = 3;
  expected_profit = 10 ^ 16;
}

simulate_and_execute-IsSafe_example :
    IsSafe slow_relays.sign
      (selected_from slow_relays (locked_state executor_1 one_hop) one_hop)
      (10 ^ 18)
      8
      (simulate_and_execute slow_relays executor_1 one_hop)
simulate_and_execute-IsSafe_example = simulate_and_execute-IsSafe slow_relays executor_1 one_hop

simulate_and_execute-IsRefused_example :
    IsRefusedAfter slow_relays one_hop (simulate_and_execute slow_relays executor_1 one_hop)
unfolding is_open collides is_occupied total_failures
simulate_and_execute-IsRefused_example =
    simulate_and_execute-IsRefused slow_relays slow_relays executor_1 one_hop one_hop refl refl refl
      refl

abbrev order_1 : Order
order_1 = record {
  signed_rlp = 9 ∷ 9 ∷ [];
  tx_hash = 42;
  bribe_pct = 50;
  bribe_wei = 5 * 10 ^ 15;
  request = record {
    to = 400;
    from = 500;
    input = [];
    nonce = 3;
    access_list = [];
    gas_limit = 65_000;
    max_fee_per_gas = 10 ^ 12;
    max_priority_fee_per_gas = 10 ^ 12;
  };
}

broadcast_loop-HasEnded_example :
    HasEnded order_1 8 2 executor_1
      (broadcast_loop slow_relays.broadcast one_hop order_1 1000 4 2 0 8 executor_1)
broadcast_loop-HasEnded_example =
    broadcast_loop-HasEnded slow_relays.broadcast one_hop order_1 1000 4 1 0 8 executor_1
      (omega arith)
