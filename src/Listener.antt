-- ===== src/Listener.antt =====
-- src/mempool_listener.rs: a log of the chain updates the mirror and triggers the search; with
-- src/v3_math.rs's `decode_v3_swap_log`.
pub mod Laws
use sovereign_shadow_mev.Prelude.{
  ℕ, ◌+◌, ◌-◌, ◌%◌, ◌^◌, Bool, true, false, not, ◌||◌, ◌&&◌, Option, none, some, List, [], ◌∷◌,
  length, contains, ltb, leb, ◌==◌, if◌then◌else◌,
}
use sovereign_shadow_mev.Prelude.Int.{ℤ, pos, negsuc}
use sovereign_shadow_mev.Bytes.{slice, from_be_bytes}
use sovereign_shadow_mev.Models.{SwapInfo, MempoolTx, uniswap_v2}
use sovereign_shadow_mev.Mirror.Pools.{StateMirror}
use sovereign_shadow_mev.Mirror.Traders.{set_insert}
use sovereign_shadow_mev.Mirror.Updates.{update_v2_reserves, update_v3_state}

-- A log: who emitted it, its topics, its data and its transaction.
pub record Log : Type 0 where
  pub address : ℕ
  pub topics : List ℕ
  pub payload : List ℕ
  pub transaction_hash : Option ℕ

pub record V3SwapLog : Type 0 where
  pub amount0 : ℤ
  pub amount1 : ℤ
  pub sqrt_price : ℕ
  pub liquidity : ℕ
  pub tick : ℤ

-- `SwapEvent`, less `received_at`.
pub record SwapEvent : Type 0 where
  pub tx_hash : ℕ
  pub sender : ℕ
  pub swap_info : SwapInfo
  pub effective_gas_price : ℕ
  pub is_whale_trigger : Bool
  pub mempool_tx : Option MempoolTx

abbrev pub v2_sync_topic : ℕ
v2_sync_topic = 0x1c411e9a96e071241c2f21f7726b17ae89e3cab4c78be50e062b03a9fffbbad1

abbrev pub v3_swap_topic : ℕ
v3_swap_topic = 0xc42079f94a6350d7e6235f29174924f928cc2ac818eb64fed8004e115fbcca67

-- `I256::from_be_bytes`: two's complement.
unfoldable pub signed_word : ℕ → ℤ
signed_word w = if ltb w (2 ^ 255) then pos w else negsuc (2 ^ 256 - w - 1)

-- `i32::try_from`
unfoldable pub to_i32 : ℤ → Option ℤ
to_i32 (pos n) = if ltb n (2 ^ 31) then some (pos n) else none
to_i32 (negsuc n) = if ltb n (2 ^ 31) then some (negsuc n) else none

unfoldable pub decode_v3_swap_log : Log → Option V3SwapLog
decode_v3_swap_log log =
    let word = λ (i : ℕ). from_be_bytes (slice log.payload i 32) in
    if ltb (length log.payload) 160 then none else elim (to_i32 (signed_word (word 128))) [
      | none ↦ none
      | some tick ↦ some (record {
        amount0 = signed_word (word 0);
        amount1 = signed_word (word 32);
        sqrt_price = word 64;
        liquidity = word 96;
        tick = tick;
      })
    ]

abbrev pub apply_v3 : StateMirror → ℕ → Option V3SwapLog → StateMirror
apply_v3 m pool none = m
apply_v3 m pool (some state) = update_v3_state m pool state.sqrt_price state.tick state.liquidity

-- What the first topic makes of the log.
unfoldable pub apply_topic : StateMirror → Log → List ℕ → StateMirror
apply_topic m log [] = m
apply_topic m log (topic0 ∷ topics) =
    if topic0 == v2_sync_topic
    then (if leb 64 (length log.payload)
        then update_v2_reserves m log.address (from_be_bytes (slice log.payload 0 32))
            (from_be_bytes (slice log.payload 32 32))
        else m)
    else if topic0 == v3_swap_topic
    then apply_v3 m log.address (decode_v3_swap_log log)
    else m

unfoldable pub update_mirror_state : Log → StateMirror → StateMirror
update_mirror_state log m = apply_topic m log log.topics

-- The event carries the log's address as the pool, and nothing else of the swap.
abbrev pub event_of : Log → ℕ → SwapEvent
event_of log tx_hash = record {
  tx_hash = tx_hash;
  sender = 0;
  swap_info = record {
    dex = uniswap_v2;
    router = log.address;
    token_in = 0;
    token_out = 0;
    amount_in = 0;
    amount_out_min = 0;
    to = 0;
    fee = none;
    permit2_nonce = none;
  };
  effective_gas_price = 0;
  is_whale_trigger = false;
  mempool_tx = none;
}

abbrev pub process_hash : Log → Option ℕ → List ℕ → Option SwapEvent × List ℕ
process_hash log none seen_hashes = (none, seen_hashes)
process_hash log (some tx_hash) seen_hashes =
    let more = set_insert tx_hash seen_hashes in
    if contains seen_hashes tx_hash
    then (none, seen_hashes)
    else (some (event_of log tx_hash), if ltb 100_000 (length more) then [] else more)

-- The event that is sent, if any, and the hashes that were seen. One event for each transaction; more than
-- 100000 hashes are forgotten.
unfoldable pub process_log_event : Log → List ℕ → Option SwapEvent × List ℕ
process_log_event log seen_hashes = process_hash log log.transaction_hash seen_hashes

-- A stream of logs: the mirror, the hashes, and the events in order.
unfoldable pub run_logs : List Log → StateMirror → List ℕ → StateMirror × List ℕ × List SwapEvent
run_logs [] m seen = (m, seen, [])
run_logs (log ∷ logs) m seen =
    let (sent, seen2) = process_log_event log seen in
    let (m2, seen3, events) = run_logs logs (update_mirror_state log m) seen2 in
    (m2, seen3, elim sent [ none ↦ events | some event ↦ event ∷ events ])
