-- ===== src/Mirror/Sync.antt =====
-- src/state_mirror.rs: the multicall that reads the pools, `sync_batch_with_jitter`, and what uses it.
pub mod Laws
use sovereign_shadow_mev.Prelude.{
  ℕ, zero, suc, ◌+◌, ◌-◌, ◌*◌, ◌^◌, Bool, true, false, not, ◌||◌, ◌&&◌, Option, none, some, List,
  [], ◌∷◌, ◌++◌, length, take, drop, contains, min, ltb, ◌==◌, if◌then◌else◌,
}
use sovereign_shadow_mev.Prelude.Int.{ℤ}
use sovereign_shadow_mev.Prelude.Assoc.{Assoc, remove}
use sovereign_shadow_mev.Constants.{top_100_pools}
use sovereign_shadow_mev.Models.{DexType}
use sovereign_shadow_mev.Mirror.Pools.{PoolState, StateMirror, default_pool}
use sovereign_shadow_mev.Mirror.Updates.{batch_update_reserves}

-- A pool to read, with its kind.
abbrev pub Target : Type 0
Target = ℕ × DexType

pub data Call3 : Type 0 where
  get_reserves_call slot0_call liquidity_call : ℕ → Call3

-- A result of the multicall: a call that failed, or its bytes.
pub data CallResult : Type 0 where
  failed : CallResult
  returned : List ℕ → CallResult

-- A pool of the third kind is asked twice, any other once.
unfoldable pub calls_for : List Target → List Call3
calls_for [] = []
calls_for ((addr, DexType.uniswap_v3) ∷ chunk) =
    slot0_call addr ∷ liquidity_call addr ∷ calls_for chunk
calls_for ((addr, _) ∷ chunk) = get_reserves_call addr ∷ calls_for chunk

-- What a chunk's results make: the new states, and the pools to drop.
abbrev pub Effects : Type 0
Effects = List (ℕ × PoolState) × List ℕ

abbrev pub no_effect : Effects
no_effect = ([], [])

abbrev pub both_effects : Effects → Effects → Effects
both_effects (updates, prunes) (more, others) = (updates ++ more, prunes ++ others)

-- Less than 0.04 ether.
abbrev pub eth_threshold : ℕ
eth_threshold = 4 * 10 ^ 16

-- The decoders of the three return values are the ABI library's.
pub record Decoders : Type 0 where
  pub reserves : List ℕ → Option (ℕ × ℕ)
  pub slot0 : List ℕ → Option (ℕ × ℤ)
  pub liquidity : List ℕ → Option ℕ

module _ (decode : Decoders) (current_block now : ℕ) where
  abbrev pub fresh_state : DexType → PoolState
  fresh_state dex_type = record (default_pool now) {
    last_updated_block = current_block;
    dex_type = dex_type;
  }

  -- Two small reserves drop the pool, unless it is one of the top pools.
  unfoldable pub reserves_effect : Target → Option (ℕ × ℕ) → Effects
  reserves_effect target none = no_effect
  reserves_effect (addr, dex_type) (some (r0, r1)) =
      if ltb r0 eth_threshold && ltb r1 eth_threshold && not (contains top_100_pools addr)
      then ([], addr ∷ [])
      else ((addr, record (fresh_state dex_type) { reserves0 = r0; reserves1 = r1 }) ∷ [], [])

  unfoldable pub pair_effect : Target → CallResult → Effects
  pair_effect target failed = no_effect
  pair_effect target (returned bytes) = reserves_effect target (decode.reserves bytes)

  abbrev v3_decoded : Target → Option (ℕ × ℤ) → Option ℕ → Effects
  v3_decoded (addr, dex_type) (some (sqrt_price, tick)) (some liquidity) = (
    (
      addr,
      record (fresh_state dex_type) {
        sqrt_price_x96 = sqrt_price;
        tick = tick;
        liquidity = liquidity;
      },
    )
        ∷ [],
    [],
  )
  v3_decoded target _ _ = no_effect

  unfoldable pub v3_effect : Target → CallResult → CallResult → Effects
  v3_effect target (returned s0) (returned l) =
      v3_decoded target (decode.slot0 s0) (decode.liquidity l)
  v3_effect target _ _ = no_effect

  -- The pools take their results off the list one after another; a pool of Maverick takes none.
  unfoldable pub read_results : List Target → List CallResult → Effects
  read_results [] results = no_effect
  read_results ((addr, DexType.maverick_v2) ∷ chunk) results = read_results chunk results
  read_results ((addr, DexType.uniswap_v3) ∷ chunk) (s0 ∷ l ∷ results) =
      both_effects (v3_effect (addr, DexType.uniswap_v3) s0 l) (read_results chunk results)
  read_results ((addr, DexType.uniswap_v3) ∷ chunk) _ = read_results chunk []
  read_results ((addr, DexType.uniswap_v2) ∷ chunk) (res ∷ results) =
      both_effects (pair_effect (addr, DexType.uniswap_v2) res) (read_results chunk results)
  read_results ((addr, DexType.uniswap_v2) ∷ chunk) [] = read_results chunk []
  read_results ((addr, DexType.aerodrome) ∷ chunk) (res ∷ results) =
      both_effects (pair_effect (addr, DexType.aerodrome) res) (read_results chunk results)
  read_results ((addr, DexType.aerodrome) ∷ chunk) [] = read_results chunk []

unfoldable pub remove_all : List ℕ → Assoc PoolState → Assoc PoolState
remove_all [] pools = pools
remove_all (addr ∷ addrs) pools = remove_all addrs (remove addr pools)

-- A chunk with no new state changes nothing, also where pools were to be dropped.
unfoldable pub apply_effects : StateMirror → Effects → StateMirror
apply_effects m ([], prunes) = m
apply_effects m (update ∷ updates, prunes) =
    let updated = batch_update_reserves m (update ∷ updates) in
    record updated { pools = remove_all prunes updated.pools }

-- The `chunks` of a list, of `size` elements each, for at most `fuel` of them.
unfoldable pub chunks : ℕ → ℕ → List Target → List (List Target)
chunks zero size targets = []
chunks (suc fuel) size [] = []
chunks (suc fuel) size (t ∷ ts) = take size (t ∷ ts) ∷ chunks fuel size (drop size (t ∷ ts))

abbrev pub multicall_batch_size : ℕ
multicall_batch_size = 2

-- `multicall` gives the results of the calls of a chunk, or nothing on an error of the connection. The mirror's
-- block is read once, at the start.
module _ (decode : Decoders) (multicall : List Call3 → Option (List CallResult)) (now : ℕ) where
  unfoldable pub apply_results :
      ℕ → List Target → StateMirror → Option (List CallResult) → StateMirror
  apply_results block chunk m none = m
  apply_results block chunk m (some results) =
      apply_effects m (read_results decode block now chunk results)

  unfoldable pub sync_chunks : ℕ → List (List Target) → StateMirror → StateMirror
  sync_chunks block [] m = m
  sync_chunks block (chunk ∷ rest) m =
      sync_chunks block rest (apply_results block chunk m (multicall (calls_for chunk)))

  -- The size of the chunks is fixed before the loop.
  unfoldable pub sync_batch_with_jitter : List Target → ℕ → StateMirror → StateMirror
  sync_batch_with_jitter batch batch_size m =
      sync_chunks m.current_block
        (chunks (length batch) (min batch_size multicall_batch_size) batch) m

  -- The pools whose last update is not of this block, or all where the mirror is dirty.
  unfoldable pub stale_targets : StateMirror → Assoc PoolState → List Target
  stale_targets m [] = []
  stale_targets m ((addr, p) ∷ pools) =
      let rest = stale_targets m pools in
      if ltb 0 (m.current_block - p.last_updated_block) || m.dirty_flag
      then (addr, p.dex_type) ∷ rest
      else rest

  unfoldable pub sync_all_pools_multicall_pooled : StateMirror → StateMirror
  sync_all_pools_multicall_pooled m = elim (stale_targets m m.pools) [
    | [] ↦ m
    | target ∷ targets ↦ record (sync_batch_with_jitter (target ∷ targets) multicall_batch_size m) {
      dirty_flag = false;
      last_multicall_sync = now;
    }
  ]

  abbrev targets_of : (ℕ → Bool) → Assoc PoolState → List Target
  targets_of keep [] = []
  targets_of keep ((addr, p) ∷ pools) =
      let rest = targets_of keep pools in if keep addr then (addr, p.dex_type) ∷ rest else rest

  -- The top pools first, and the others in the background.
  unfoldable pub smart_bootstrap : StateMirror → StateMirror
  smart_bootstrap m =
      let top = targets_of (λ addr. contains top_100_pools addr) m.pools in
      let remaining = targets_of (λ addr. not (contains top_100_pools addr)) m.pools in
      sync_batch_with_jitter remaining 40 (sync_batch_with_jitter top 100 m)
