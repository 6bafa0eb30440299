-- ===== src/Tests/Feeding.antt =====
-- The laws of the parts that feed the mirror and search it, and of the inventory, at concrete inputs.
use sovereign_shadow_mev.Prelude.{
  ◌%◌, Bool, ℕ, ◌+◌, ◌-◌, ◌≤◌, ◌^◌, ◌≡◌, refl, arith, true, false, Option, none, some, List, [],
  ◌∷◌, ◌++◌, length, map, ◌*◌, done, Returns, ltb, if◌then◌else◌,
}
use sovereign_shadow_mev.Prelude.Int.{pos}
use sovereign_shadow_mev.Bytes.{to_be_bytes}
use sovereign_shadow_mev.Constants.{token_weth, token_usdc}
use sovereign_shadow_mev.Models.{DexName, DexType, Hop, default_hop}
use sovereign_shadow_mev.Mirror.Pools.{PoolState, StateMirror, default_pool, new_mirror}
use sovereign_shadow_mev.Mirror.Updates.{update_v2_reserves}
use sovereign_shadow_mev.Mirror.Sync.{
  Target, Call3, CallResult, returned, failed, Decoders, calls_for, read_results, slot0_call,
  get_reserves_call, liquidity_call,
}
use sovereign_shadow_mev.Mirror.Sync.Laws.{own_effects, read_results-own_effects}
use sovereign_shadow_mev.Detector.Select.{ArbitrageDetector, Registration}
use sovereign_shadow_mev.Detector.Rebuild.{rebuild_graph}
use sovereign_shadow_mev.Detector.Search.{search_direction}
use sovereign_shadow_mev.Detector.Search.Laws.{FindChains, rebuild_graph-FindChains}
use sovereign_shadow_mev.Detector.Evaluate.{evaluate}
use sovereign_shadow_mev.Detector.Evaluate.Laws.{IsWorth, evaluate-IsWorth}
use sovereign_shadow_mev.Listener.{Log, v2_sync_topic, update_mirror_state, run_logs}
use sovereign_shadow_mev.Listener.Laws.{
  AreNew, AreDistinct, event_hashes, run_logs-AreOnce, update_mirror_state-update_v2_reserves,
}
use sovereign_shadow_mev.Factory.WarmStart.{HasCovered, warm_start, warm_start-HasCovered}
use sovereign_shadow_mev.Inventory.Sweep.{
  TokenAnswers, InventoryManager, approve, swap_to_weth, new_inventory, auto_sweep,
}
use sovereign_shadow_mev.Inventory.Sweep.Laws.{AreNumbered, auto_sweep-AreNumbered, auto_sweep-gap}
use sovereign_shadow_mev.Inventory.Guard.{
  Quiet, step, start, enter_first, go_on_first, return_first, enter_second, IsExclusive,
  Quiet-IsExclusive,
}

-- A Sync log of the pool 77, in the transaction 5.
abbrev sync_log : ℕ → Log
sync_log r0 = record {
  address = 77;
  topics = v2_sync_topic ∷ [];
  payload = to_be_bytes 32 r0 ++ to_be_bytes 32 2000;
  transaction_hash = some 5;
}

update_mirror_state-update_v2_reserves_example :
    update_mirror_state (sync_log 1000) (new_mirror [] [])
    ≡ update_v2_reserves (new_mirror [] []) 77 1000 2000
update_mirror_state-update_v2_reserves_example =
    update_mirror_state-update_v2_reserves 77 1000 2000 [] (some 5) (new_mirror [] []) (omega arith)
      (omega arith)

-- Two logs of one transaction.
run_logs-AreOnce_example :
    AreNew [] (event_hashes (run_logs (sync_log 1 ∷ sync_log 2 ∷ []) (new_mirror [] []) []).2)
    × AreDistinct (event_hashes (run_logs (sync_log 1 ∷ sync_log 2 ∷ []) (new_mirror [] []) []).2)
run_logs-AreOnce_example =
    run_logs-AreOnce (sync_log 1 ∷ sync_log 2 ∷ []) (new_mirror [] []) [] (omega arith)

-- The provider fails three times.
abbrev late_answers : ℕ → Option (List Log)
late_answers i = if ltb i 3 then none else some []

late_answers-come : (i : ℕ) → 3 ≤ i → late_answers i ≡ some []
late_answers-come i late = ground arith

warm_start-HasCovered_example : HasCovered (5000 - 2000) 5000 (warm_start late_answers (3 + 9) 5000)
warm_start-HasCovered_example =
    warm_start-HasCovered late_answers 3 5000 (omega arith) (omega arith)
      (λ i late. let come = late_answers-come i late in rw come refl)

abbrev pair_bytes : Decoders
pair_bytes = record {
  reserves = λ bytes. some (length bytes, 7);
  slot0 = λ bytes. some (length bytes, pos 0);
  liquidity = λ bytes. some 1;
}

-- The call for the liquidity of a pool fails.
abbrev most_answer : Call3 → CallResult
most_answer (get_reserves_call addr) = returned (1 ∷ 2 ∷ [])
most_answer (slot0_call addr) = returned (1 ∷ [])
most_answer (liquidity_call addr) = failed

abbrev three_pools : List Target
three_pools = (71, DexType.uniswap_v2) ∷ (72, DexType.uniswap_v3) ∷ (73, DexType.aerodrome) ∷ []

read_results-own_effects_example :
    read_results pair_bytes 10 20 three_pools (map most_answer (calls_for three_pools))
    ≡ own_effects pair_bytes 10 20 most_answer three_pools
read_results-own_effects_example =
    read_results-own_effects pair_bytes 10 20 most_answer three_pools tt

-- Two pools of the same two tokens.
abbrev weth_usdc : Registration
weth_usdc = record { token_0 = token_weth; token_1 = token_usdc; dex_name = DexName.sushi_swap }

abbrev two_pool_detector : ArbitrageDetector
two_pool_detector = record {
  graph = record {
    tokens = [];
    token_to_idx = λ _. none;
    pools = [];
    pool_to_idx = λ _. none;
    nodes = [];
    edges = [];
  };
  pool_registry = (77, weth_usdc) ∷ (78, weth_usdc) ∷ [];
  pool_activity = [];
  alpha_grace_period = [];
}

abbrev two_pool_mirror : StateMirror
two_pool_mirror = record (new_mirror [] []) {
  pools =
      (77, record (default_pool 0) { reserves0 = 10 ^ 19; reserves1 = 10 ^ 19 })
      ∷ (78, record (default_pool 0) { reserves0 = 10 ^ 19; reserves1 = 2 ^ 60 })
      ∷ [];
}

rebuild_graph-FindChains_example :
    Returns (rebuild_graph two_pool_detector two_pool_mirror 0) (λ after.
      Returns
        (search_direction after.graph two_pool_mirror.pools 77 (token_weth, token_usdc))
        (FindChains token_usdc token_weth 6))
rebuild_graph-FindChains_example =
    rebuild_graph-FindChains two_pool_detector two_pool_mirror two_pool_mirror 0 77 token_weth
      token_usdc (omega arith, omega arith, (omega arith, omega arith, tt)) (omega arith)

-- A path through the two pools, with the states of both.
abbrev first_hop : Hop
first_hop = record default_hop {
  pool_address = 77;
  token_in = token_weth;
  token_out = token_usdc;
  dex_name = DexName.sushi_swap;
  zero_for_one = false;
}

abbrev second_hop : Hop
second_hop = record first_hop {
  pool_address = 78;
  token_in = token_usdc;
  token_out = token_weth;
  zero_for_one = true;
}

abbrev two_states : List PoolState
two_states =
    record (default_pool 0) { reserves0 = 2 * 10 ^ 19; reserves1 = 10 ^ 19 }
    ∷ record (default_pool 0) { reserves0 = 10 ^ 19; reserves1 = 10 ^ 19 }
    ∷ []

evaluate-IsWorth_example :
    Returns
      (evaluate
        (λ a b c. 0)
        (λ hops states. done 0)
        (λ hops. 0)
        1
        0
        7
        none
        (first_hop ∷ second_hop ∷ [])
        two_states)
      (IsWorth (λ a b c. 0) two_states 1 (first_hop ∷ second_hop ∷ []))
evaluate-IsWorth_example =
    evaluate-IsWorth (λ a b c. 0) two_states (λ hops states. done 0) (λ hops. 0) 1 0 7 none
      first_hop (second_hop ∷ []) refl (tt, (tt, tt)) refl

-- A contract and an account that hold every token, and a provider that takes the approvals if it is told to.
abbrev sweep_answers : Bool → ℕ → ℕ → TokenAnswers
sweep_answers approves held token = record {
  contract_bal = held;
  balance = 10 ^ 18;
  withdraws = true;
  approves = approves;
  swaps = true;
}

abbrev two_tokens : InventoryManager
two_tokens = record (new_inventory 9) { harvest_registry = 5 ∷ 6 ∷ [] }

abbrev one_token : InventoryManager
one_token = record (new_inventory 9) { harvest_registry = 5 ∷ [] }

auto_sweep-AreNumbered_example :
    AreNumbered 9
      (auto_sweep (sweep_answers true (10 ^ 17)) 0 false two_tokens).0
      (auto_sweep (sweep_answers true (10 ^ 17)) 0 false two_tokens).1.nonce
auto_sweep-AreNumbered_example =
    auto_sweep-AreNumbered (sweep_answers true (10 ^ 17)) 0 false two_tokens
      (refl, refl, refl, (refl, refl, refl, tt))

auto_sweep-gap_example :
    ((auto_sweep (sweep_answers false 0) 0 false one_token).0 ≡ [])
    × ((auto_sweep
          (sweep_answers true 0)
          0
          false
          (auto_sweep (sweep_answers false 0) 0 false one_token).1).0
        ≡ approve 5 (10 ^ 18) ((9 + 1) % 2 ^ 64)
          ∷ swap_to_weth 5 (10 ^ 18) (((9 + 1) % 2 ^ 64 + 1) % 2 ^ 64)
          ∷ [])
auto_sweep-gap_example =
    auto_sweep-gap (sweep_answers false 0) (sweep_answers true 0) 5 0 one_token refl refl refl
      (omega arith) (omega arith) (omega arith) refl (omega arith) (omega arith) refl refl

-- The first call sweeps one token and ends, and then the second one enters.
abbrev one_after_the_other : Quiet (record { running = true; first = none; second = some (2 ∷ []) })
one_after_the_other =
    step
      (step (step (step start (enter_first (1 ∷ []) none)) (go_on_first 1 [] true none))
        (return_first [] true none))
      (enter_second (2 ∷ []) none)

Quiet-IsExclusive_example :
    IsExclusive (record { running = true; first = none; second = some (2 ∷ []) })
Quiet-IsExclusive_example = Quiet-IsExclusive one_after_the_other
