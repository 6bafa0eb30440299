-- ===== src/Runtime.antt =====
-- src/main.rs: the tasks that join the parts, one function for each message that a task takes.
pub mod Laws
use sovereign_shadow_mev.Prelude.{
  Run, done, panic, leb, ℕ, ◌+◌, ◌%◌, ◌^◌, Bool, true, false, not, ◌||◌, ◌&&◌, Option, none, some,
  List, [], ◌∷◌, contains, ◌==◌, if◌then◌else◌,
}
use sovereign_shadow_mev.Prelude.Assoc.{Assoc, lookup, insert, contains_key}
use sovereign_shadow_mev.Models.{DexName, DexType, Hop, Opportunity}
use sovereign_shadow_mev.Mirror.Pools.{StateMirror, PoolState, default_pool}
use sovereign_shadow_mev.Mirror.Blocks.{sync_block}
use sovereign_shadow_mev.Mirror.Codes.{fetch_and_cache_bytecode}
use sovereign_shadow_mev.Mirror.Traders.{set_insert}
use sovereign_shadow_mev.Mirror.Updates.{update_aerodrome_stable}
use sovereign_shadow_mev.Mirror.Sync.{Decoders, Call3, CallResult, sync_batch_with_jitter}
use sovereign_shadow_mev.Breaker.Switch.{CircuitBreaker, record_sequencer_drift}
use sovereign_shadow_mev.Listener.{Log, SwapEvent, update_mirror_state, event_of}
use sovereign_shadow_mev.Factory.Parse.{NewPoolEvent, v2, v3}
use sovereign_shadow_mev.Inventory.Sweep.{InventoryManager, register_token_for_harvest}

-- What the tasks share; `block_tracker` is the bundle builder's, and `seen_hashes` the bridge's.
pub record Runtime : Type 0 where
  pub mirror : StateMirror
  pub circuit_breaker : CircuitBreaker
  pub block_tracker : ℕ
  pub seen_hashes : List ℕ

-- The heartbeat on a log: the mirror is updated and the log goes on to the bridge.
unfoldable pub on_log : Log → Runtime → Runtime × Log
on_log log rt = (record rt { mirror = update_mirror_state log rt.mirror }, log)

-- The heartbeat on a block.
unfoldable pub on_block : ℕ → Option ℕ → ℕ → ℕ → Runtime → Runtime
on_block number base_fee timestamp now rt = record rt {
  mirror = sync_block rt.mirror number (elim base_fee [ none ↦ 0 | some fee ↦ fee ]) timestamp;
  circuit_breaker = record_sequencer_drift rt.circuit_breaker timestamp now;
  block_tracker = number;
}

-- A log with no transaction counts as one of the hash 0.
abbrev pub hash_of : Log → ℕ
hash_of log = elim (log.transaction_hash) [ none ↦ 0 | some hash ↦ hash ]

-- The bridge: the first log of a transaction becomes an event if its pool is in the mirror.
unfoldable pub bridge_hash : ℕ → Log → Runtime → Runtime × Option SwapEvent
bridge_hash tx_hash log rt =
    let seen = record rt { seen_hashes = set_insert tx_hash rt.seen_hashes } in
    if contains rt.seen_hashes tx_hash
    then (rt, none)
    else if contains_key log.address rt.mirror.pools
    then (seen, some (event_of log tx_hash))
    else (seen, none)

unfoldable pub bridge : Log → Runtime → Runtime × Option SwapEvent
bridge log rt = bridge_hash (hash_of log) log rt

abbrev pub is_aerodrome : DexName → Bool
is_aerodrome DexName.aerodrome = true
is_aerodrome _ = false

-- The pool of an event with the kind that it is kept under.
unfoldable pub feed_target : NewPoolEvent → ℕ × DexType
feed_target (v2 d) =
    (d.pair, if is_aerodrome d.dex_name then DexType.aerodrome else DexType.uniswap_v2)
feed_target (v3 d) = (d.pool, DexType.uniswap_v3)

-- `entry(addr).or_insert(state)`
abbrev or_insert : ℕ → PoolState → Assoc PoolState → Assoc PoolState
or_insert addr state pools = if contains_key addr pools then pools else insert addr state pools

abbrev feed_stable : NewPoolEvent → StateMirror → StateMirror
feed_stable (v2 d) m = if is_aerodrome d.dex_name then update_aerodrome_stable m d.pair true else m
feed_stable (v3 d) m = m

-- A new pool: it is put into the mirror, handed to the initialisation, and marked as stable if it is one of
-- Aerodrome.
unfoldable pub feed_pool : NewPoolEvent → ℕ → StateMirror → StateMirror × (ℕ × DexType)
feed_pool event now m =
    let target = feed_target event in
    let state = record (default_pool now) { dex_type = target.1 } in
    (feed_stable event (record m { pools = or_insert target.0 state m.pools }), target)

-- The initialisation of a pool: its byte code, then its state.
unfoldable pub init_pool :
    Decoders
    → (List Call3 → Option (List CallResult))
    → (ℕ → Option (List ℕ))
    → ℕ
    → ℕ × DexType
    → StateMirror
    → StateMirror
init_pool decode multicall fetched now target m =
    sync_batch_with_jitter decode multicall now (target ∷ []) 1
      (fetch_and_cache_bytecode m target.0 (fetched target.0))

-- The tokens of a trade that was accepted are registered for the sweep.
unfoldable pub register_hops : List Hop → InventoryManager → InventoryManager
register_hops [] inv = inv
register_hops (hop ∷ hops) inv =
    register_hops hops
      (register_token_for_harvest hop.token_out (register_token_for_harvest hop.token_in inv))

-- What the main loop does with an opportunity.
pub data Decision : Type 0 where
  paused dry_run busy execute : Decision

-- Only one execution runs at a time; what comes meanwhile is dropped. An expected profit that does not fit 128
-- bits panics before the dry run is told from a real one.
unfoldable pub decide : Bool → ℕ → ℕ → Bool → Run Decision
decide global_pause expected_profit executor_address permit_taken =
    if global_pause
    then done paused
    else if leb (2 ^ 128) expected_profit
    then panic
    else if executor_address == 0
    then done dry_run
    else if permit_taken
    then done busy
    else done execute
