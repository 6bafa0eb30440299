-- ===== src/Detector/Search/Laws.antt =====
-- What the tasks of one direction find.
use sovereign_shadow_mev.Prelude.{
  ℕ, zero, suc, ◌+◌, ◌-◌, ◌≤◌, ◌<◌, ◌≡◌, refl, sym, ap, ◌∙◌, subst, arith, false, Option, none,
  some, List, [], ◌∷◌, length, get_elem?, leb, ◌==◌, at_run, Returns, Bool-cases, inl, inr,
}
use sovereign_shadow_mev.Prelude.Assoc.{Assoc}
use sovereign_shadow_mev.Mirror.Pools.{PoolState, StateMirror}
use sovereign_shadow_mev.Detector.Select.{ArbitrageDetector}
use sovereign_shadow_mev.Detector.Rebuild.{rebuild_graph}
use sovereign_shadow_mev.Detector.Rebuild.Valid.{
  HasSmallReserves, Returns_imp, rebuild_graph-IsGraph,
}
use sovereign_shadow_mev.Detector.Graph.{StaticEdge, StaticGraph, IsGraph, IsIndexed}
use sovereign_shadow_mev.Detector.Cycles.{mark, hop_of}
use sovereign_shadow_mev.Detector.Cycles.Laws.{
  bind-Returns, at_run-Returns, some_inj, EdgeOk, AreCycles, hop_of-Returns, find_cycles_dfs-cycles,
}
use sovereign_shadow_mev.Detector.Search.{
  Task, first_visited, mark_trigger, direction_tasks, first_hop_task, start_tasks, search_direction,
}

-- No task panics, and every path that one finds is a chain from `a` to `b` of at most `n` hops.
abbrev pub FindChains : ℕ → ℕ → ℕ → List Task → Type 0
FindChains a b n [] = Unit
FindChains a b n (task ∷ tasks) = Returns task (AreCycles a b n) × FindChains a b n tasks

first_visited-Returns :
    (found : Option ℕ)
    → ((idx : ℕ) → found ≡ some idx → idx < 4096)
    → Returns (first_visited found) (λ visited. Unit)
first_visited-Returns none small = tt
first_visited-Returns (some idx) small =
    let bound = small idx refl in let fits : leb 4096 idx ≡ false = ground arith in rw fits tt

module _ (graph : StaticGraph) (pools : Assoc PoolState) (router target current a b : ℕ) where
  mark_trigger-Returns :
      IsGraph graph → IsIndexed graph → Returns (mark_trigger graph router) (λ visited. Unit)
  unfolding mark_trigger
  mark_trigger-Returns ok indexed =
      first_visited-Returns (graph.pool_to_idx router)
        (λ idx there. let bound = indexed.1 router idx there in let few = ok.2 in omega arith)

  first_hop_task-Returns :
      (edge : StaticEdge)
      → IsGraph graph
      → IsIndexed graph
      → get_elem? graph.tokens target ≡ some b
      → current < length graph.tokens
      → get_elem? graph.tokens current ≡ some a
      → EdgeOk graph edge
      → Returns (first_hop_task graph pools router target current edge) (AreCycles a b 6)
  unfolding first_hop_task
  first_hop_task-Returns edge ok indexed goal inside here good =
      let few = ok.2 in
      let fits : leb 4096 edge.pool_idx ≡ false = ground arith in
      bind-Returns (mark_trigger graph router) _ _ _ (mark_trigger-Returns ok indexed) (λ visited _.
        bind-Returns (hop_of graph pools target current edge) _ _ _
          (hop_of-Returns graph pools target current a edge inside here good)
          (λ hop is_hop. elim (Bool-cases (edge.target_token_idx == target)) [
            | inl back ↦
                let same : edge.target_token_idx ≡ target = ground arith in
                let last =
                  some_inj hop.token_out b
                    (sym is_hop.1 ∙ ap (get_elem? graph.tokens) same ∙ goal) in
                rw (fits, back) ((is_hop.0, last), omega arith, omega arith, tt)
            | inr on ↦
                rw (fits, on)
                  (find_cycles_dfs-cycles graph pools target 5 a b edge.target_token_idx
                    hop.token_out (hop ∷ []) (mark visited edge.pool_idx) ok goal good.0 is_hop.1
                    (is_hop.0, refl))
          ]))

  start_tasks-FindChains :
      (n i : ℕ)
      → IsGraph graph
      → IsIndexed graph
      → get_elem? graph.tokens target ≡ some b
      → current < length graph.tokens
      → get_elem? graph.tokens current ≡ some a
      → i + n ≤ length graph.edges
      → Returns (start_tasks graph pools router target current n i) (FindChains a b 6)
  unfolding start_tasks
  start_tasks-FindChains zero i ok indexed goal inside here within = tt
  start_tasks-FindChains (suc n) i ok indexed goal inside here within =
      bind-Returns (at_run graph.edges i) _ _ _ (at_run-Returns graph.edges i (omega arith))
        (λ edge is_edge.
          let (f, is_f, good0, good1) = ok.1 i (omega arith) in
          let same = some_inj f edge (sym is_f ∙ is_edge) in
          bind-Returns (start_tasks graph pools router target current n (suc i)) _ _ _
            (start_tasks-FindChains n (suc i) ok indexed goal inside here (omega arith))
            (λ others rest. (
              first_hop_task-Returns edge ok indexed goal inside here
                  (subst (EdgeOk graph) same (good0, good1)),
              rest,
            )))

direction_tasks-FindChains :
    (graph : StaticGraph) (pools : Assoc PoolState) (router a b : ℕ) (start current : Option ℕ)
    → IsGraph graph
    → IsIndexed graph
    → ((i : ℕ) → start ≡ some i → (i < length graph.tokens) × (get_elem? graph.tokens i ≡ some b))
    → ((i : ℕ) → current ≡ some i → (i < length graph.tokens) × (get_elem? graph.tokens i ≡ some a))
    → Returns (direction_tasks graph pools router start current) (FindChains a b 6)
unfolding direction_tasks
direction_tasks-FindChains graph pools router a b none current ok indexed at_start at_current = tt
direction_tasks-FindChains graph pools router a b (some start) none ok indexed at_start at_current =
    tt
direction_tasks-FindChains graph pools router a b (some start) (some current) ok indexed at_start
      at_current =
    let (inside, here) = at_current current refl in
    let (first, stop, is_first, is_stop, order, within) = ok.0 current inside in
    rw (at_run, is_first, is_stop)
      (start_tasks-FindChains graph pools router start current a b (stop - first) first ok indexed
        (at_start start refl).1 inside here (omega arith))

-- In a graph whose indices are in bounds, the tasks of a direction are started without a panic and
-- none of them panics, and every path that they find is a chain of one to six hops that begins at
-- the token that the swap gives out and ends at the token that it takes in: it leads back to where
-- it begins only where these two are the same.
pub search_direction-FindChains :
    (graph : StaticGraph) (pools : Assoc PoolState) (router t_in t_out : ℕ)
    → IsGraph graph
    → IsIndexed graph
    → Returns (search_direction graph pools router (t_in, t_out)) (FindChains t_out t_in 6)
unfolding search_direction
search_direction-FindChains graph pools router t_in t_out ok indexed =
    direction_tasks-FindChains graph pools router t_out t_in (graph.token_to_idx t_in)
      (graph.token_to_idx t_out) ok indexed (indexed.0 t_in) (indexed.0 t_out)

-- From a mirror of at most 4096 pools whose reserves fit 128 bits, whatever is registered, hot or
-- new, a graph is made without a panic, and the search of a direction in it, on any later state of
-- the mirror, starts its tasks without a panic, none of them panics, and each path that one finds
-- is a chain of one to six hops that begins at the direction's second token and ends at its first.
pub rebuild_graph-FindChains :
    (d : ArbitrageDetector) (m later : StateMirror) (now router t_in t_out : ℕ)
    → HasSmallReserves m.pools
    → length m.pools ≤ 4096
    → Returns (rebuild_graph d m now) (λ after.
      Returns
        (search_direction after.graph later.pools router (t_in, t_out))
        (FindChains t_out t_in 6))
rebuild_graph-FindChains d m later now router t_in t_out small few =
    Returns_imp (rebuild_graph d m now) _ _ (rebuild_graph-IsGraph d m now small few) (λ after good.
      search_direction-FindChains after.graph later.pools router t_in t_out good.0 good.1)
