-- ===== src/Detector/Graph.antt =====
-- src/arbitrage_detector.rs: the graph that the search reads.
use sovereign_shadow_mev.Prelude.{ℕ, suc, ◌≤◌, ◌<◌, ◌≡◌, List, length, get_elem?, some, Option}
use sovereign_shadow_mev.Models.{DexName}

pub record StaticEdge : Type 0 where
  pub pool_idx : ℕ
  pub target_token_idx : ℕ
  pub dex_name : DexName

-- The edges of token `i` are those from `nodes[i]` up to `nodes[i + 1]`.
pub record StaticGraph : Type 0 where
  pub tokens : List ℕ
  pub token_to_idx : ℕ → Option ℕ
  pub pools : List ℕ
  pub pool_to_idx : ℕ → Option ℕ
  pub nodes : List ℕ
  pub edges : List StaticEdge

-- Every token has its two bounds, in order and within the edges, every edge leads to a token by a pool, and the pools
-- fit the bit set of the search.
abbrev pub IsGraph : StaticGraph → Type 0
IsGraph g =
    ((i : ℕ)
      → i < length g.tokens
      → (a : ℕ) × (b : ℕ) × (get_elem? g.nodes i ≡ some a)
        × (get_elem? g.nodes (suc i) ≡ some b)
        × (a ≤ b)
        × (b ≤ length g.edges))
    × ((i : ℕ)
        → i < length g.edges
        → (e : StaticEdge) × (get_elem? g.edges i ≡ some e)
          × (e.target_token_idx < length g.tokens)
          × (e.pool_idx < length g.pools))
    × (length g.pools ≤ 4096)

-- What the two maps give is where a token stands, and an index of the pools.
abbrev pub IsIndexed : StaticGraph → Type 0
IsIndexed g =
    ((token i : ℕ)
      → g.token_to_idx token ≡ some i
      → (i < length g.tokens) × (get_elem? g.tokens i ≡ some token))
    × ((pool i : ℕ) → g.pool_to_idx pool ≡ some i → i < length g.pools)
