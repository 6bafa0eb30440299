-- ===== src/Tests/Pools.antt =====
-- The laws of the pool formulas and of the encodings at concrete values.
use sovereign_shadow_mev.Prelude.{
  refl, if◌then◌else◌, ◌==◌, none, Option, ℕ, ◌+◌, ◌-◌, ◌*◌, ◌^◌, ◌≤◌, ◌<◌, ◌≡◌, arith, true, false,
  some, [], ◌∷◌, map, ◌⊎◌,
}
use sovereign_shadow_mev.Prelude.Int.{ℤ, pos}
use sovereign_shadow_mev.Models.{DexType, Hop, default_hop, Lender, lender_id, ArbitragePath}
use sovereign_shadow_mev.Mirror.Pools.{PoolState, default_pool}
use sovereign_shadow_mev.MathEngine.PathOutput.{get_path_output, get_path_output_with_states}
use sovereign_shadow_mev.MathEngine.PathOutput.Laws.{get_path_output_with_states-get_path_output}
use sovereign_shadow_mev.Models.Encode.{encode_ghost_multi}
use sovereign_shadow_mev.Models.Encode.Laws.{read_payload, pack, read_payload-encode_ghost_multi}
use sovereign_shadow_mev.MathEngine.V2.{get_v2_output}
use sovereign_shadow_mev.MathEngine.V2.Laws.{get_v2_output-product}
use sovereign_shadow_mev.MathEngine.Sqrt.{uint_sqrt_512}
use sovereign_shadow_mev.MathEngine.Sqrt.Laws.{IsRoot, uint_sqrt_512-IsRoot}
use sovereign_shadow_mev.MathEngine.Optimal.{calculate_optimal_v2_v2}
use sovereign_shadow_mev.MathEngine.Optimal.Laws.{calculate_optimal_v2_v2-equal_pools}
use sovereign_shadow_mev.MathEngine.Impact.{reserves_after}
use sovereign_shadow_mev.MathEngine.Impact.Laws.{IsPriceOf, reserves_after-priced}
use sovereign_shadow_mev.MathEngine.Golden.{find_optimal_input}
use sovereign_shadow_mev.MathEngine.Golden.Laws.{find_optimal_input_sound}

get_v2_output-product_example :
    (get_v2_output 1000 5000 7000 true < 7000)
    × (5000 * 7000 ≤ (5000 + 1000) * (7000 - get_v2_output 1000 5000 7000 true))
get_v2_output-product_example =
    get_v2_output-product 1000 5000 7000 true (omega arith) (omega arith) (omega arith)
      (omega arith) (omega arith)

uint_sqrt_512-IsRoot_example : IsRoot 1000 (uint_sqrt_512 1000)
uint_sqrt_512-IsRoot_example = uint_sqrt_512-IsRoot 1000 (omega arith)

calculate_optimal_v2_v2-equal_pools_example :
    10 ^ 18 ≤ calculate_optimal_v2_v2 (10 ^ 18) (10 ^ 18) (10 ^ 18) (10 ^ 18) 30 30
calculate_optimal_v2_v2-equal_pools_example =
    calculate_optimal_v2_v2-equal_pools (10 ^ 18) 30 (omega arith) (omega arith) (omega arith)

reserves_after-priced_example :
    (paid : ℕ) × (reserves_after 5000 7000 1000 0 ≡ some (5000 - 1000, 7000 + paid))
    × (reserves_after 7000 5000 0 1000 ≡ some (7000 + paid, 5000 - 1000))
    × IsPriceOf (λ a. get_v2_output a 5000 7000 false) paid 1000
    × IsPriceOf (λ a. get_v2_output a 7000 5000 true) paid 1000
reserves_after-priced_example =
    reserves_after-priced 7000 5000 1000 0 (omega arith) (omega arith) (omega arith) (omega arith)
      (omega arith)

-- A constant profit of 5.
abbrev five : ℕ → ℤ
five n = pos 5

find_optimal_input_sound_example :
    (find_optimal_input five 10 1000 ≡ (0, 0))
    ⊎ ((10 ≤ (find_optimal_input five 10 1000).0)
        × ((find_optimal_input five 10 1000).0 ≤ 1000)
        × (five (find_optimal_input five 10 1000).0 ≡ pos (find_optimal_input five 10 1000).1)
        × (0 < (find_optimal_input five 10 1000).1))
find_optimal_input_sound_example =
    find_optimal_input_sound five 10 1000 (omega arith) (omega arith) (omega arith)

abbrev one_hop : Hop
one_hop = record default_hop {
  pool = 77;
  token_out = 88;
  dex_type = DexType.aerodrome;
  is_stable = true;
}

abbrev short_path : ArbitragePath
short_path = record { hops = one_hop ∷ []; loans = (5, 6) ∷ []; lender = Lender.aave_v3 }

read_payload-encode_ghost_multi_example :
    read_payload (encode_ghost_multi short_path ((5, 6) ∷ []) 1000) ≡ record {
      min_profit = 1000;
      lender = lender_id Lender.aave_v3;
      loans = (5, 6) ∷ [];
      hops = map pack (one_hop ∷ []);
    }
read_payload-encode_ghost_multi_example =
    read_payload-encode_ghost_multi short_path ((5, 6) ∷ []) 1000 (omega arith)
      (omega arith, omega arith, tt) (omega arith, omega arith, tt) (omega arith) (omega arith)

abbrev deep_pool : PoolState
deep_pool = record (default_pool 0) { reserves0 = 5000; reserves1 = 7000 }

-- The mirror knows one pool, at address 77.
abbrev one_pool : ℕ → Option PoolState
one_pool a = if a == 77 then some deep_pool else none

abbrev plain_hop : Hop
plain_hop = record default_hop { pool_address = 77; zero_for_one = true }

get_path_output_with_states-get_path_output_example :
    get_path_output_with_states (λ a b c. 0) (plain_hop ∷ []) 1000 (deep_pool ∷ [])
    ≡ get_path_output (λ a b c. 0) one_pool (plain_hop ∷ []) 1000
get_path_output_with_states-get_path_output_example =
    get_path_output_with_states-get_path_output (λ a b c. 0) one_pool (plain_hop ∷ []) 1000
      (deep_pool ∷ []) (refl, tt)
