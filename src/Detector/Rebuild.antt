-- ===== src/Detector/Rebuild.antt =====
-- src/arbitrage_detector.rs: `rebuild_graph`, from the selected pools to the graph. There are fewer than
-- 2 ^ 32 pools and edges, so that the indices do not wrap.
pub mod Laws
pub mod Valid
use sovereign_shadow_mev.Prelude.{
  ℕ, zero, suc, ◌+◌, Bool, Option, none, some, List, [], ◌∷◌, ◌++◌, length, map, ◌==◌,
  if◌then◌else◌, Run, done, panic, ◌>>=◌,
}
use sovereign_shadow_mev.Models.{DexName}
use sovereign_shadow_mev.Mirror.Pools.{StateMirror}
use sovereign_shadow_mev.Mirror.Traders.{set_insert}
use sovereign_shadow_mev.Detector.Graph.{StaticEdge, StaticGraph}
use sovereign_shadow_mev.Detector.Select.{
  Registration, ArbitrageDetector, Selected, select_pools, retain_registered,
}

-- An entry of `adj`: the token that it is kept under, and the `PoolEdge`.
pub record PoolEdge : Type 0 where
  pub token_a : ℕ
  pub pool_address : ℕ
  pub token_b : ℕ
  pub dex_name : DexName

-- Both directions of a pool, in the order in which they are pushed.
unfoldable pub pool_edges : List Selected → List PoolEdge
pool_edges [] = []
pool_edges ((pool, reg) ∷ selected) =
    record {
      token_a = reg.token_0;
      pool_address = pool;
      token_b = reg.token_1;
      dex_name = reg.dex_name;
    }
    ∷ record {
      token_a = reg.token_1;
      pool_address = pool;
      token_b = reg.token_0;
      dex_name = reg.dex_name;
    }
    ∷ pool_edges selected

-- The set of the tokens, a list in an order of its own.
unfoldable pub token_set : List Selected → List ℕ
token_set [] = []
token_set ((pool, reg) ∷ selected) =
    set_insert reg.token_1 (set_insert reg.token_0 (token_set selected))

abbrev pub pool_list : List Selected → List ℕ
pool_list [] = []
pool_list ((pool, reg) ∷ selected) = pool ∷ pool_list selected

-- The index that the last insertion for a key leaves, in an enumeration from `i` on.
unfoldable pub index_from : ℕ → List ℕ → ℕ → Option ℕ
index_from i [] key = none
index_from i (x ∷ xs) key = elim (index_from (suc i) xs key) [
  | some j ↦ some j
  | none ↦ if x == key then some i else none
]

-- `*map.get(key).unwrap()`
abbrev pub unwrap : Option ℕ → Run ℕ
unwrap none = panic
unwrap (some i) = done i

module _ (pools tokens : List ℕ) where
  unfoldable pub static_edge : PoolEdge → Run StaticEdge
  static_edge edge = unwrap (index_from 0 pools edge.pool_address) >>= λ pool_idx.
      unwrap (index_from 0 tokens edge.token_b) >>= λ target_token_idx. done (record {
        pool_idx = pool_idx;
        target_token_idx = target_token_idx;
        dex_name = edge.dex_name;
      })

  -- The edges of one token.
  unfoldable pub edges_of : ℕ → List PoolEdge → Run (List StaticEdge)
  edges_of token [] = done []
  edges_of token (edge ∷ edges) =
      let rest = edges_of token edges in
      if edge.token_a == token
      then (static_edge edge >>= λ first. rest >>= λ others. done (first ∷ others))
      else rest

  -- The offsets of the tokens, with the sentinel, and all the edges.
  unfoldable pub lay_out : List PoolEdge → List ℕ → ℕ → Run (List ℕ × List StaticEdge)
  lay_out adj [] current_offset = done (current_offset ∷ [], [])
  lay_out adj (token ∷ others) current_offset = edges_of token adj >>= λ edges.
      lay_out adj others (current_offset + length edges) >>= λ (nodes, rest).
      done (current_offset ∷ nodes, edges ++ rest)

unfoldable pub graph_of : List Selected → Run StaticGraph
graph_of selected =
    let tokens = token_set selected in
    let pools = pool_list selected in
    lay_out pools tokens (pool_edges selected) tokens 0 >>= λ (nodes, edges). done (record {
      tokens = tokens;
      token_to_idx = index_from 0 tokens;
      pools = pools;
      pool_to_idx = index_from 0 pools;
      nodes = nodes;
      edges = edges;
    })

unfoldable pub rebuild_graph : ArbitrageDetector → StateMirror → ℕ → Run ArbitrageDetector
rebuild_graph d m now = select_pools d m now m.pools >>= λ selected.
    graph_of selected >>= λ graph. done (record d { graph = graph })

unfoldable pub sync_registry : ArbitrageDetector → StateMirror → ℕ → Run ArbitrageDetector
sync_registry d m now = rebuild_graph (retain_registered d m) m now
