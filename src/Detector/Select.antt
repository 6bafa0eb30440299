-- ===== src/Detector/Select.antt =====
-- src/arbitrage_detector.rs: the registry of the detector, and the pools that `rebuild_graph` selects. Instants
-- are in nanoseconds.
use sovereign_shadow_mev.Prelude.{
  ℕ, ◌-◌, ◌*◌, ◌/◌, ◌^◌, Bool, true, false, not, ◌||◌, ◌&&◌, Option, none, some, List, [], ◌∷◌,
  contains, min, ltb, leb, ◌==◌, if◌then◌else◌, Run, done, panic, ◌>>=◌,
}
use sovereign_shadow_mev.Prelude.Assoc.{Assoc, lookup, insert, retain, contains_key}
use sovereign_shadow_mev.Constants.{
  token_usdc, token_weth, token_virtual, token_luna, token_ai16z, top_100_pools,
  pool_hotness_ttl_sec, max_alpha_liquidity_usd, estimated_eth_price,
}
use sovereign_shadow_mev.Models.{DexName}
use sovereign_shadow_mev.Mirror.Pools.{StateMirror, PoolState}
use sovereign_shadow_mev.Mirror.Traders.{get_competition_score}
use sovereign_shadow_mev.Detector.Graph.{StaticGraph}

-- A registered pool: its two tokens and its exchange.
pub record Registration : Type 0 where
  pub token_0 : ℕ
  pub token_1 : ℕ
  pub dex_name : DexName

-- The state of `ArbitrageDetector`, less its channels and configuration.
pub record ArbitrageDetector : Type 0 where
  pub graph : StaticGraph
  pub pool_registry : Assoc Registration
  pub pool_activity : Assoc ℕ
  pub alpha_grace_period : Assoc ℕ

-- `elapsed().as_secs() < limit`, and not for a pool that has no entry.
unfoldable pub is_recent : Assoc ℕ → ℕ → ℕ → ℕ → Bool
is_recent instants pool now limit = elim (lookup pool instants) [
  | none ↦ false
  | some t ↦ ltb ((now - t) / 10 ^ 9) limit
]

-- `saturating_mul` on 128 bits.
abbrev saturating_mul128 : ℕ → ℕ → ℕ
saturating_mul128 a b = min (a * b) (2 ^ 128 - 1)

-- `to::<u128>()`
abbrev to_u128 : ℕ → Run ℕ
to_u128 a = if leb (2 ^ 128) a then panic else done a

abbrev dollars_of_usdc : ℕ → Run ℕ
dollars_of_usdc reserve = to_u128 reserve >>= λ r. done (saturating_mul128 (r / 1_000_000) 2)

abbrev dollars_of_weth : ℕ → Run ℕ
dollars_of_weth reserve = to_u128 reserve >>= λ r.
    done (saturating_mul128 (saturating_mul128 (r / 10 ^ 18) 2) estimated_eth_price)

-- The liquidity in dollars, read off the reserve of the token that has a known price.
unfoldable pub liq_usd : Registration → PoolState → Run ℕ
liq_usd reg p =
    if reg.token_0 == token_usdc
    then dollars_of_usdc p.reserves0
    else if reg.token_1 == token_usdc
    then dollars_of_usdc p.reserves1
    else if reg.token_0 == token_weth
    then dollars_of_weth p.reserves0
    else if reg.token_1 == token_weth
    then dollars_of_weth p.reserves1
    else done 0

abbrev is_star : ℕ → Bool
is_star t = (t == token_virtual) || (t == token_luna) || (t == token_ai16z)

abbrev is_between : ℕ → ℕ → Bool
is_between low liquidity = leb low liquidity && leb liquidity max_alpha_liquidity_usd

unfoldable pub is_in_sweet_spot : Registration → Bool → ℕ → Bool
is_in_sweet_spot reg is_core liquidity =
    if is_star reg.token_0 || is_star reg.token_1
    then is_between 500 liquidity
    else is_core || is_between 1000 liquidity

unfoldable pub is_niche_dex : DexName → Bool
is_niche_dex DexName.sushi_swap = true
is_niche_dex DexName.base_swap = true
is_niche_dex DexName.pancake_swap = true
is_niche_dex _ = false

-- `should_include`, and false where competition makes the loop go on.
unfoldable pub should_include :
    ArbitrageDetector → StateMirror → ℕ → ℕ → Registration → PoolState → Run Bool
should_include d m now pool reg p =
    let is_core = contains top_100_pools pool in
    liq_usd reg p >>= λ liquidity. done (
      if ltb 2 (get_competition_score m pool) && not is_core
      then false
      else is_core
        || is_recent d.alpha_grace_period pool now 1800
        || is_recent d.pool_activity pool now pool_hotness_ttl_sec
        || is_niche_dex reg.dex_name
        || is_in_sweet_spot reg is_core liquidity
        || (p.last_updated_block == 0))

-- A selected pool with its registration.
abbrev pub Selected : Type 0
Selected = ℕ × Registration

-- One pool of the mirror, with its registration if there is one, before the selection of the others.
unfoldable pub consider_pool :
    ArbitrageDetector
    → StateMirror
    → ℕ
    → ℕ
    → PoolState
    → Option Registration
    → Run (List Selected)
    → Run (List Selected)
consider_pool d m now pool p none rest = rest
consider_pool d m now pool p (some reg) rest = should_include d m now pool reg p >>= λ included.
    rest >>= λ others. done (if included then (pool, reg) ∷ others else others)

-- The loop over the pools of the mirror, in the order of the list that stands for the map.
unfoldable pub select_pools :
    ArbitrageDetector → StateMirror → ℕ → Assoc PoolState → Run (List Selected)
select_pools d m now [] = done []
select_pools d m now ((pool, p) ∷ pools) =
    consider_pool d m now pool p (lookup pool d.pool_registry) (select_pools d m now pools)

-- `get_pool_from_router`: the first registered pool of two tokens, in either order.
unfoldable pub get_pool_from_router : Assoc Registration → ℕ → ℕ → Option ℕ
get_pool_from_router [] t_in t_out = none
get_pool_from_router ((pool, reg) ∷ registry) t_in t_out =
    let later = get_pool_from_router registry t_in t_out in
    if ((reg.token_0 == t_in) && (reg.token_1 == t_out))
      || ((reg.token_0 == t_out) && (reg.token_1 == t_in))
    then some pool
    else later

-- A pool that was just created, from the channel of the factories.
unfoldable pub register_pool : ArbitrageDetector → ℕ → Registration → ℕ → ArbitrageDetector
register_pool d pool reg now = record d {
  pool_registry = insert pool reg d.pool_registry;
  alpha_grace_period = insert pool now d.alpha_grace_period;
}

-- The pool of an event becomes hot: the pool itself for a token of 0, else the pool of the two tokens.
unfoldable pub touch_pool : ArbitrageDetector → ℕ → ℕ → ℕ → ℕ → ArbitrageDetector
touch_pool d router token_in token_out now =
    if token_in == 0
    then record d { pool_activity = insert router now d.pool_activity }
    else elim (get_pool_from_router d.pool_registry token_in token_out) [
      | none ↦ d
      | some pool ↦ record d { pool_activity = insert pool now d.pool_activity }
    ]

-- `sync_registry` before its rebuild: only pools of the mirror stay registered.
unfoldable pub retain_registered : ArbitrageDetector → StateMirror → ArbitrageDetector
retain_registered d m = record d {
  pool_registry = retain (λ pool reg. contains_key pool m.pools) d.pool_registry;
}
