-- ===== src/Lib.antt =====
-- The engine of Sovereign Shadow, an arbitrage searcher on Base, in Rust.
--
-- The listener (src/mempool_listener.rs) and the scanners (src/factory_scanner.rs, src/discovery.rs) feed
-- logs and new pools into the mirror (src/state_mirror.rs). The detector (src/arbitrage_detector.rs) turns
-- the mirror's pools into a graph, searches it for chains, and asks the math engine (src/math_engine.rs, on
-- src/v3_math.rs) for the input and the output of each. The executor (src/flash_loan_executor.rs) checks
-- and simulates what is found (src/state_simulator.rs), bids for it (src/bidding_engine.rs), packs it for
-- the contract (src/models.rs) and sends it to the relays, guarded by the circuit breaker (src/utils.rs).
-- What is earned is swept (src/profit_manager.rs, src/inventory_manager.rs). src/main.rs joins the parts.
--
-- Prelude, Bytes, Uint: numbers are the native natural numbers; `Uint` writes out the wrap-around of 256
--   and 512 bits, and a 64-bit operation its `% 2 ^ 64`. `Prelude.Panics` has runs that may panic, by a
--   division by zero, an index or slice out of bounds, or a conversion that does not fit. An address is a
--   number, and a concurrent map an association list (`Prelude.Assoc`).
-- Constants: src/constants.rs, as far as it is read here.
-- V3Math: src/v3_math.rs, one module for each group of functions: Arith, Ratio, TickSearch, Delta,
--   SwapStep, Bitmap, Swap. The search of a tick runs on 22 units of fuel, since its interval of
--   1774544 ticks halves in each round.
-- MathEngine: src/math_engine.rs: V2, Stable, PathOutput, Impact, Golden, Optimal, Sqrt, Virtual. The
--   floating-point first guess of the stable pool is a parameter. Newton's square root recurs on the
--   falling estimate; golden section has the 40 rounds of the source.
-- Models: src/models.rs, with the payload of `encode_ghost_multi`. Errors has `MEVError` and the result of
--   an operation that may fail or panic.
-- Mirror: src/state_mirror.rs: Pools has the state, Blocks, Traders, Codes, Updates and Prune the
--   operations, each a function from a mirror to a mirror, with the time as an argument. Sync has the
--   multicall: the answers of a chunk and the ABI decoders are parameters, and the delays are left out.
-- Decoder: the readers of src/utils.rs and src/universal_decoder.rs. The packed path's loop runs on the
--   path's length, which is enough as each round moves on 23 bytes.
-- Breaker: `CircuitBreaker` and `estimate_l1_fee` of src/utils.rs.
-- Bidding: src/bidding_engine.rs. The floating-point test on the rise of the heat is a parameter.
-- Profit: src/gas_feed.rs (the median), src/profit_manager.rs and src/nonce_manager.rs. What the network
--   answers during one call is the call's input.
-- Detector: src/arbitrage_detector.rs: Select has `rebuild_graph`'s choice of pools and the registry,
--   Rebuild the graph, Search the directions and tasks of `process_event`, Cycles `find_cycles_dfs`,
--   whose fuel is `max_depth + 1 - depth`, and Evaluate what becomes of the paths that are found; the
--   floating-point search for paths through Aerodrome is a parameter there.
-- Simulator: src/state_simulator.rs, and src/simulation_engine.rs in Engine. The machine is a parameter
--   (`Evm`): a function from a transaction and a world to an outcome and a world. XRay scans byte code,
--   Honeypot checks a token, Noise and Strategy run an opportunity in its three branches.
-- Executor: src/flash_loan_executor.rs. State has the executor, its locks and what it gets from outside
--   (`Outside`); Candidates, Pricing and Broadcast are the stages of `simulate_and_execute`, and Pipeline
--   joins them. The rounds with the relays have the 2 attempts of the source as fuel.
-- Listener: src/mempool_listener.rs, with `decode_v3_swap_log` of src/v3_math.rs: what one log does.
-- Factory: Parse has the parsers of src/factory_scanner.rs and src/discovery.rs, WarmStart the scan of
--   src/discovery.rs, on fuel for the requests.
-- Inventory: src/inventory_manager.rs: Sweep has its operations, with what the provider takes as an input and
--   the shared counter of nonces for itself, Guard the turns of two sweeps.
-- Runtime: the tasks of src/main.rs, one function for each message.
-- Providers: `WsProviderPool` of src/lib.rs. The loop has a round for each connection, as in the source.
-- Tests: the laws at concrete inputs.
--
-- Not modelled: network, file and channel input and output, the revm library, the signing and sending of
-- src/bundle_builder.rs, the floating-point search (`find_optimal_input_newton`), `bootstrap_core_pools`, telemetry, and the contracts in Solidity.
pub mod Prelude
pub mod Uint
pub mod V3Math
pub mod Bytes
pub mod Constants
pub mod Models
pub mod Mirror
pub mod MathEngine
pub mod Decoder
pub mod Breaker
pub mod Bidding
pub mod Profit
pub mod Simulator
pub mod Executor
pub mod Listener
pub mod Factory
pub mod Inventory
pub mod Runtime
pub mod Detector
pub mod Providers
pub mod Tests
