-- ===== src/Detector/Search.antt =====
-- src/arbitrage_detector.rs: the searches that `process_event` starts for one swap. Each edge that leaves a
-- token is a task of its own, with its own hops and visited pools.
pub mod Laws
use sovereign_shadow_mev.Prelude.{
  ℕ, zero, suc, ◌+◌, ◌-◌, Bool, true, false, ◌||◌, Option, none, some, List, [], ◌∷◌, ◌++◌, ltb,
  leb, ◌==◌, if◌then◌else◌, Run, done, panic, ◌>>=◌, at_run,
}
use sovereign_shadow_mev.Prelude.Assoc.{Assoc, lookup}
use sovereign_shadow_mev.Constants.{max_hops}
use sovereign_shadow_mev.Models.{Hop, SwapInfo}
use sovereign_shadow_mev.Mirror.Pools.{StateMirror, PoolState}
use sovereign_shadow_mev.Mirror.Traders.{is_congested}
use sovereign_shadow_mev.Detector.Graph.{StaticEdge, StaticGraph}
use sovereign_shadow_mev.Detector.Cycles.{mark, hop_of, find_cycles_dfs}
use sovereign_shadow_mev.Detector.Select.{Registration, ArbitrageDetector}

-- The pairs of tokens to search for, each in both directions.
unfoldable pub search_directions : Assoc Registration → SwapInfo → List (ℕ × ℕ)
search_directions registry swap =
    if swap.token_in == 0
    then elim (lookup swap.router registry) [
      | none ↦ []
      | some reg ↦ (reg.token_0, reg.token_1) ∷ (reg.token_1, reg.token_0) ∷ []
    ]
    else (swap.token_in, swap.token_out) ∷ (swap.token_out, swap.token_in) ∷ []

-- What a task finds, or its panic.
abbrev pub Task : Type 0
Task = Run (List (List Hop))

-- The visited pools, at first the one with this index, if its bit is in bounds.
abbrev pub first_visited : Option ℕ → Run (ℕ → Bool)
first_visited none = done (λ i. false)
first_visited (some idx) = if leb 4096 idx then panic else done (mark (λ i. false) idx)

-- The trigger's pool is marked as visited, if it is in the graph.
unfoldable pub mark_trigger : StaticGraph → ℕ → Run (ℕ → Bool)
mark_trigger graph router = first_visited (graph.pool_to_idx router)

module _ (graph : StaticGraph) (pools : Assoc PoolState) (router target current : ℕ) where
  -- The first hop is taken whether its pool is visited or not; the search goes on from depth 2.
  unfoldable pub first_hop_task : StaticEdge → Task
  first_hop_task edge = mark_trigger graph router >>= λ visited.
      hop_of graph pools target current edge >>= λ hop.
      if leb 4096 edge.pool_idx
      then panic
      else if edge.target_token_idx == target
      then done ((hop ∷ []) ∷ [])
      else find_cycles_dfs graph pools target (max_hops + 1 - 2) edge.target_token_idx (hop ∷ [])
          (mark visited edge.pool_idx)

  -- The tasks of the edges `i`, `i + 1`, ..., `n` of them.
  unfoldable pub start_tasks : ℕ → ℕ → Run (List Task)
  start_tasks zero i = done []
  start_tasks (suc n) i =
      let rest = start_tasks n (suc i) in
      at_run graph.edges i >>= λ edge. rest >>= λ others. done (first_hop_task edge ∷ others)

-- The tasks from the token `current` to the token `start`, unless one of them is not in the graph.
unfoldable pub direction_tasks :
    StaticGraph → Assoc PoolState → ℕ → Option ℕ → Option ℕ → Run (List Task)
direction_tasks graph pools router (some start) (some current) =
    at_run graph.nodes current >>= λ first. at_run graph.nodes (suc current) >>= λ stop.
    start_tasks graph pools router start current (stop - first) first
direction_tasks graph pools router none current = done []
direction_tasks graph pools router (some start) none = done []

-- One direction: from the token that the swap gives out to the token that it takes in.
unfoldable pub search_direction : StaticGraph → Assoc PoolState → ℕ → ℕ × ℕ → Run (List Task)
search_direction graph pools router (t_in, t_out) =
    direction_tasks graph pools router (graph.token_to_idx t_in) (graph.token_to_idx t_out)

unfoldable pub search_all : StaticGraph → Assoc PoolState → ℕ → List (ℕ × ℕ) → Run (List Task)
search_all graph pools router [] = done []
search_all graph pools router (direction ∷ directions) =
    let rest = search_all graph pools router directions in
    search_direction graph pools router direction >>= λ tasks.
    rest >>= λ others. done (tasks ++ others)

-- A crowded pool is left alone.
unfoldable pub search_event : ArbitrageDetector → StateMirror → SwapInfo → Run (List Task)
search_event d m swap =
    if is_congested m swap.router 3
    then done []
    else search_all d.graph m.pools swap.router (search_directions d.pool_registry swap)
