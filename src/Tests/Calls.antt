-- ===== src/Tests/Calls.antt =====
-- The laws of the call decoders and of the cycle search on small data.
use sovereign_shadow_mev.Prelude.{
  ℕ, zero, suc, ◌-◌, ◌^◌, ◌≤◌, ◌<◌, ◌≡◌, get_elem?, refl, arith, false, some, none, List, [], ◌∷◌,
  ◌++◌, replicate, panic, Returns,
}
use sovereign_shadow_mev.Models.{DexName}
use sovereign_shadow_mev.Bytes.{from_be_bytes}
use sovereign_shadow_mev.Decoder.Readers.{read_usize}
use sovereign_shadow_mev.Decoder.Pairs.{decode_v2}
use sovereign_shadow_mev.Decoder.Pairs.Safety.{Ends, decode_v2-Ends}
use sovereign_shadow_mev.Decoder.Intents.{parse_uniswapx_order}
use sovereign_shadow_mev.Decoder.Intents.Wrap.{parse_uniswapx_order-wraps}
use sovereign_shadow_mev.Detector.Graph.{StaticEdge, StaticGraph, IsGraph}
use sovereign_shadow_mev.Detector.Cycles.{find_cycles_dfs}
use sovereign_shadow_mev.Detector.Cycles.Laws.{AreCycles, find_cycles_dfs-cycles}

decode_v2-Ends_example : Ends (decode_v2 (replicate 200 255) 1)
decode_v2-Ends_example = decode_v2-Ends (replicate 200 255) 1 (omega arith)

-- Word 0 points at word 1, whose length is the largest 64-bit number.
abbrev wrapping_order : List ℕ
wrapping_order = replicate 31 0 ++ 32 ∷ replicate 24 0 ++ replicate 8 255

parse_uniswapx_order-wraps_example : parse_uniswapx_order wrapping_order 0 1 ≡ panic
unfolding read_usize from_be_bytes
parse_uniswapx_order-wraps_example =
    parse_uniswapx_order-wraps wrapping_order 0 1 32 (2 ^ 64 - 1) refl refl (omega arith)
      (omega arith)

-- Two tokens and two pools between them.
abbrev two_pools : StaticGraph
two_pools = record {
  tokens = 100 ∷ 200 ∷ [];
  token_to_idx = λ t. none;
  pools = 11 ∷ 12 ∷ [];
  pool_to_idx = λ p. none;
  nodes = 0 ∷ 2 ∷ 4 ∷ [];
  edges =
      record { pool_idx = 0; target_token_idx = 1; dex_name = DexName.uniswap_v2 }
      ∷ record { pool_idx = 1; target_token_idx = 1; dex_name = DexName.aerodrome }
      ∷ record { pool_idx = 0; target_token_idx = 0; dex_name = DexName.uniswap_v2 }
      ∷ record { pool_idx = 1; target_token_idx = 0; dex_name = DexName.aerodrome }
      ∷ [];
}

nodes_ok :
    (i : ℕ)
    → i < 2
    → (a : ℕ) × (b : ℕ) × (get_elem? two_pools.nodes i ≡ some a)
      × (get_elem? two_pools.nodes (suc i) ≡ some b)
      × (a ≤ b)
      × (b ≤ 4)
nodes_ok zero h = (0, 2, refl, refl, omega arith, omega arith)
nodes_ok (suc zero) h = (2, 4, refl, refl, omega arith, omega arith)
nodes_ok (suc (suc i)) h = absurd (omega (arith, h))

edges_ok :
    (i : ℕ)
    → i < 4
    → (e : StaticEdge) × (get_elem? two_pools.edges i ≡ some e)
      × (e.target_token_idx < 2)
      × (e.pool_idx < 2)
edges_ok zero h = (_, refl, omega arith, omega arith)
edges_ok (suc zero) h = (_, refl, omega arith, omega arith)
edges_ok (suc (suc zero)) h = (_, refl, omega arith, omega arith)
edges_ok (suc (suc (suc zero))) h = (_, refl, omega arith, omega arith)
edges_ok (suc (suc (suc (suc i)))) h = absurd (omega (arith, h))

two_pools-IsGraph : IsGraph two_pools
two_pools-IsGraph = (nodes_ok, edges_ok, omega arith)

find_cycles_dfs-cycles_example :
    Returns (find_cycles_dfs two_pools [] 0 5 0 [] (λ i. false)) (AreCycles 100 100 5)
find_cycles_dfs-cycles_example =
    find_cycles_dfs-cycles two_pools [] 0 5 100 100 0 100 [] (λ i. false) two_pools-IsGraph refl
      (omega arith) refl refl
