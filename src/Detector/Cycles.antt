-- ===== src/Detector/Cycles.antt =====
-- src/arbitrage_detector.rs: `find_cycles_dfs`. The bit set of visited pools, 64 words of 64 bits, is its
-- membership test on the indices below 4096; a larger index is out of its bounds and panics. An edge is
-- taken only where its bit is clear, so that clearing the bit and popping the hop after the edge give
-- back the set and the hops from before it: both go down the calls only.
pub mod Laws
use sovereign_shadow_mev.Prelude.{
  ℕ, zero, suc, ◌+◌, ◌-◌, Bool, true, false, ◌||◌, ◌&&◌, List, [], ◌∷◌, ◌++◌, length, Option, none,
  some, ltb, leb, ◌==◌, if◌then◌else◌, Run, done, panic, ◌>>=◌, at_run,
}
use sovereign_shadow_mev.Prelude.Assoc.{Assoc, lookup}
use sovereign_shadow_mev.Models.{DexName, DexType, Hop, default_hop}
use sovereign_shadow_mev.Mirror.Pools.{PoolState}
use sovereign_shadow_mev.Detector.Graph.{StaticEdge, StaticGraph}

abbrev pub hop_dex_type : DexName → DexType
hop_dex_type DexName.aerodrome = DexType.aerodrome
hop_dex_type DexName.uniswap_v3 = DexType.uniswap_v3
hop_dex_type _ = DexType.uniswap_v2

-- `state_mirror.pools.get(&pool_addr).map(|p| p.is_stable).unwrap_or(false)`
unfoldable pub stable_in : Assoc PoolState → ℕ → Bool
stable_in pools addr = elim (lookup addr pools) [ none ↦ false | some p ↦ p.is_stable ]

abbrev pub mark : (ℕ → Bool) → ℕ → ℕ → Bool
mark visited p i = (i == p) || visited i

module _ (graph : StaticGraph) (pools : Assoc PoolState) (target : ℕ) where
  unfoldable pub hop_of : ℕ → StaticEdge → Run Hop
  hop_of current edge = at_run graph.pools edge.pool_idx >>= λ pool_addr.
      at_run graph.tokens current >>= λ token_in.
      at_run graph.tokens edge.target_token_idx >>= λ token_out. done (record default_hop {
        pool = pool_addr;
        pool_address = pool_addr;
        token_in = token_in;
        token_out = token_out;
        is_stable = stable_in pools pool_addr;
        dex_type = hop_dex_type edge.dex_name;
        dex_name = edge.dex_name;
        zero_for_one = ltb token_in token_out;
      })

  -- One edge: `search` is the recursive call, from the token that the edge leads to.
  unfoldable pub take_edge :
      (ℕ → List Hop → (ℕ → Bool) → Run (List (List Hop)))
      → ℕ
      → List Hop
      → (ℕ → Bool)
      → StaticEdge
      → Run (List (List Hop))
  take_edge search current hops visited edge =
      if leb 4096 edge.pool_idx
      then panic
      else if visited edge.pool_idx
      then done []
      else hop_of current edge >>= λ hop.
          let longer = hops ++ hop ∷ [] in
          if (edge.target_token_idx == target) && leb 1 (length longer)
          then done (longer ∷ [])
          else search edge.target_token_idx longer (mark visited edge.pool_idx)

  -- The edges `i`, `i + 1`, ..., `n` of them, their results in order.
  unfoldable pub edge_loop : (StaticEdge → Run (List (List Hop))) → ℕ → ℕ → Run (List (List Hop))
  edge_loop step zero i = done []
  edge_loop step (suc n) i =
      let rest = edge_loop step n (suc i) in
      at_run graph.edges i >>= λ edge.
      step edge >>= λ found. rest >>= λ others. done (found ++ others)

  -- The fuel is `max_depth + 1 - depth`: at 0 the depth is beyond `max_depth`.
  unfoldable pub find_cycles_dfs : ℕ → ℕ → List Hop → (ℕ → Bool) → Run (List (List Hop))
  find_cycles_dfs zero current hops visited = done []
  find_cycles_dfs (suc fuel) current hops visited = at_run graph.nodes current >>= λ start.
      at_run graph.nodes (suc current) >>= λ stop.
      edge_loop (take_edge (find_cycles_dfs fuel) current hops visited) (stop - start) start
