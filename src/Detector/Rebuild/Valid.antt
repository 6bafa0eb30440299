-- ===== src/Detector/Rebuild/Valid.antt =====
-- What is rebuilt is a graph.
use sovereign_shadow_mev.Prelude.{
  ℕ, zero, suc, ◌+◌, ◌^◌, ◌≤◌, ◌<◌, ◌≡◌, refl, ap, subst, arith, Option, none, some, List, [], ◌∷◌,
  ◌++◌, length, length-append, get_elem?, contains, ◌==◌, Run, done, panic, Returns, Bool-cases,
  inl, inr,
}
use sovereign_shadow_mev.Detector.Graph.{IsGraph}
use sovereign_shadow_mev.Detector.Cycles.Laws.{bind-Returns}
use sovereign_shadow_mev.Detector.Select.{Registration, Selected}
use sovereign_shadow_mev.Detector.Rebuild.{
  PoolEdge, pool_edges, token_set, pool_list, index_from, unwrap, static_edge, edges_of, lay_out,
  graph_of,
}
use sovereign_shadow_mev.Prelude.Assoc.{Assoc, lookup}
use sovereign_shadow_mev.Mirror.Pools.{StateMirror, PoolState}
use sovereign_shadow_mev.Detector.Graph.{IsIndexed}
use sovereign_shadow_mev.Detector.Select.{
  ArbitrageDetector, liq_usd, should_include, consider_pool, select_pools,
}
use sovereign_shadow_mev.Detector.Rebuild.{rebuild_graph}
use sovereign_shadow_mev.Detector.Rebuild.Laws.{
  IsKnown, AllKnown, AllInside, index_from-InRange, unwrap-InRange, pool_edges-AllKnown,
  AllInside-append, AllInside-at, index_from-here,
}

-- The bounds of `n` tokens from the offset `off` on, up to `top`.
abbrev HasBounds : ℕ → ℕ → ℕ → List ℕ → Type 0
HasBounds n off top nodes =
    (get_elem? nodes 0 ≡ some off)
    × ((i : ℕ)
        → i < n
        → (a : ℕ) × (b : ℕ) × (get_elem? nodes i ≡ some a)
          × (get_elem? nodes (suc i) ≡ some b)
          × (a ≤ b)
          × (b ≤ top))

HasBounds-cons :
    (n off len top : ℕ) (nodes : List ℕ)
    → off + len ≤ top
    → HasBounds n (off + len) top nodes
    → HasBounds (suc n) off top (off ∷ nodes)
HasBounds-cons n off len top nodes fits h = (
  refl,
  λ i lt.
      elim i
          as (λ i.
            i < suc n
            → (a : ℕ) × (b : ℕ) × (get_elem? (off ∷ nodes) i ≡ some a)
              × (get_elem? nodes i ≡ some b)
              × (a ≤ b)
              × (b ≤ top)) [
                | zero ↦ λ _. (off, off + len, refl, h.0, omega arith, fits)
                | suc k ↦ λ lt. h.1 k (omega arith)
              ]
        lt,
)

module _ (pools tokens : List ℕ) where
  static_edge-Returns :
      (edge : PoolEdge)
      → IsKnown pools tokens edge
      → Returns
          (static_edge pools tokens edge)
          (λ e. (e.target_token_idx < length tokens) × (e.pool_idx < length pools))
  unfolding static_edge
  static_edge-Returns edge known =
      bind-Returns (unwrap (index_from 0 pools edge.pool_address)) _ (λ j. j < 0 + length pools) _
        (unwrap-InRange (contains pools edge.pool_address) (0 + length pools)
          (index_from 0 pools edge.pool_address) known.0
          (index_from-InRange 0 pools edge.pool_address))
        (λ pool_idx p.
          bind-Returns (unwrap (index_from 0 tokens edge.token_b)) _ (λ j. j < 0 + length tokens) _
            (unwrap-InRange (contains tokens edge.token_b) (0 + length tokens)
              (index_from 0 tokens edge.token_b) known.1 (index_from-InRange 0 tokens edge.token_b))
            (λ token_idx t. (omega arith, omega arith)))

  edges_of-Returns :
      (token : ℕ) (edges : List PoolEdge)
      → AllKnown pools tokens edges
      → Returns (edges_of pools tokens token edges) (AllInside (length pools) (length tokens))
  unfolding edges_of
  edges_of-Returns token [] known = tt
  edges_of-Returns token (edge ∷ edges) known =
      let later = edges_of-Returns token edges known.1 in
      elim (Bool-cases (edge.token_a == token)) [
        | inr other ↦ rw other later
        | inl here ↦ rw here (
            bind-Returns (static_edge pools tokens edge) _ _ _ (static_edge-Returns edge known.0)
              (λ first good.
                bind-Returns (edges_of pools tokens token edges) _ _ _ later
                  (λ others rest. (good.0, good.1, rest))))
      ]

  lay_out-Returns :
      (adj : List PoolEdge) (ts : List ℕ) (off : ℕ)
      → AllKnown pools tokens adj
      → Returns (lay_out pools tokens adj ts off) (λ (nodes, edges).
        HasBounds (length ts) off (off + length edges) nodes
        × AllInside (length pools) (length tokens) edges)
  unfolding lay_out
  lay_out-Returns adj [] off known = ((refl, λ i lt. absurd (omega (arith, lt))), tt)
  lay_out-Returns adj (token ∷ others) off known =
      bind-Returns (edges_of pools tokens token adj) _ _ _ (edges_of-Returns token adj known)
        (λ edges inside.
          bind-Returns (lay_out pools tokens adj others (off + length edges)) _ _ _
            (lay_out-Returns adj others (off + length edges) known)
            (λ (nodes, rest) laid.
              let size = length-append edges rest in
              (
                HasBounds-cons (length others) off (length edges) (off + length (edges ++ rest))
                    nodes (omega arith)
                    (subst (λ top. HasBounds (length others) (off + length edges) top nodes)
                      {x = off + length edges + length rest} {y = off + length (edges ++ rest)}
                      (omega arith) laid.0),
                AllInside-append (length pools) (length tokens) edges rest inside laid.1,
              )))

length-pool_list : (selected : List Selected) → length (pool_list selected) ≡ length selected
length-pool_list [] = refl
length-pool_list (s ∷ selected) = ap suc (length-pool_list selected)

graph_of-IsGraph :
    (selected : List Selected)
    → length selected ≤ 4096
    → Returns (graph_of selected) (λ g. IsGraph g × IsIndexed g)
unfolding graph_of
graph_of-IsGraph selected few =
    let pools = pool_list selected in
    let tokens = token_set selected in
    let size = length-pool_list selected in
    bind-Returns (lay_out pools tokens (pool_edges selected) tokens 0) _ _ _
      (lay_out-Returns pools tokens (pool_edges selected) tokens 0 (pool_edges-AllKnown selected))
      (λ (nodes, edges) laid. (
        (
          λ i lt.
              let (a, b, is_a, is_b, order, top) = laid.0.1 i lt in
              (a, b, is_a, is_b, order, omega arith),
          λ i lt. AllInside-at (length pools) (length tokens) edges i laid.1 lt,
          omega arith,
        ),
        (
          λ token i e. index_from-here tokens token i e,
          λ pool i e. (index_from-here pools pool i e).0,
        ),
      ))

-- Both reserves of every pool fit 128 bits.
abbrev pub HasSmallReserves : Assoc PoolState → Type 0
HasSmallReserves [] = Unit
HasSmallReserves ((pool, p) ∷ pools) =
    (p.reserves0 < 2 ^ 128) × (p.reserves1 < 2 ^ 128) × HasSmallReserves pools

liq_usd-Returns :
    (reg : Registration) (p : PoolState)
    → p.reserves0 < 2 ^ 128
    → p.reserves1 < 2 ^ 128
    → Returns (liq_usd reg p) (λ liquidity. Unit)
unfolding liq_usd
liq_usd-Returns reg p h0 h1 = ground arith

should_include-Returns :
    (d : ArbitrageDetector) (m : StateMirror) (now pool : ℕ) (reg : Registration) (p : PoolState)
    → p.reserves0 < 2 ^ 128
    → p.reserves1 < 2 ^ 128
    → Returns (should_include d m now pool reg p) (λ included. Unit)
unfolding should_include
should_include-Returns d m now pool reg p h0 h1 =
    bind-Returns (liq_usd reg p) _ (λ liquidity. Unit) _ (liq_usd-Returns reg p h0 h1) (λ _ _. tt)

pub Returns_imp :
    {T : Type 0} (m : Run T) (P Q : T → Type 0) → Returns m P → ((a : T) → P a → Q a) → Returns m Q
Returns_imp (done a) P Q h k = k a h
Returns_imp panic P Q h k = h

consider_pool-Returns :
    (d : ArbitrageDetector) (m : StateMirror) (now pool n : ℕ) (p : PoolState)
    (found : Option Registration) (rest : Run (List Selected))
    → p.reserves0 < 2 ^ 128
    → p.reserves1 < 2 ^ 128
    → Returns rest (λ selected. length selected ≤ n)
    → Returns (consider_pool d m now pool p found rest) (λ selected. length selected ≤ suc n)
unfolding consider_pool
consider_pool-Returns d m now pool n p none rest h0 h1 few =
    Returns_imp rest (λ selected. length selected ≤ n) _ few (λ selected less. omega arith)
consider_pool-Returns d m now pool n p (some reg) rest h0 h1 few =
    bind-Returns (should_include d m now pool reg p) _ (λ _. Unit) _
      (should_include-Returns d m now pool reg p h0 h1)
      (λ included _. bind-Returns rest _ _ _ few (λ others less. ground arith))

select_pools-Returns :
    (d : ArbitrageDetector) (m : StateMirror) (now : ℕ) (pools : Assoc PoolState)
    → HasSmallReserves pools
    → Returns (select_pools d m now pools) (λ selected. length selected ≤ length pools)
unfolding select_pools
select_pools-Returns d m now [] small = omega arith
select_pools-Returns d m now ((pool, p) ∷ pools) small =
    consider_pool-Returns d m now pool (length pools) p (lookup pool d.pool_registry)
      (select_pools d m now pools) small.0 small.1 (select_pools-Returns d m now pools small.2)

-- From a mirror of at most 4096 pools whose reserves fit 128 bits, whatever is registered, hot or new, a
-- graph is made without a panic; every index in it is in bounds, and its maps say where each token stands.
pub rebuild_graph-IsGraph :
    (d : ArbitrageDetector) (m : StateMirror) (now : ℕ)
    → HasSmallReserves m.pools
    → length m.pools ≤ 4096
    → Returns (rebuild_graph d m now) (λ after. IsGraph after.graph × IsIndexed after.graph)
unfolding rebuild_graph
rebuild_graph-IsGraph d m now small few =
    bind-Returns (select_pools d m now m.pools) _ _ _ (select_pools-Returns d m now m.pools small)
      (λ selected less.
        bind-Returns (graph_of selected) _ _ _ (graph_of-IsGraph selected (omega arith))
          (λ graph good. good))
