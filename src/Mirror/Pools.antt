-- ===== src/Mirror/Pools.antt =====
-- src/state_mirror.rs: the state of a pool, of the gas market, and of the mirror.
use sovereign_shadow_mev.Prelude.{ℕ, List, [], Option, none, Bool, false, true}
use sovereign_shadow_mev.Prelude.Int.{ℤ, pos}
use sovereign_shadow_mev.Prelude.Assoc.{Assoc}
use sovereign_shadow_mev.Models.{DexType}

pub record PoolState : Type 0 where
  pub reserves0 : ℕ
  pub reserves1 : ℕ
  pub liquidity : ℕ
  pub sqrt_price_x96 : ℕ
  pub tick : ℤ
  pub fee : ℕ
  pub dex_type : DexType
  pub is_stable : Bool
  pub last_updated_block : ℕ
  pub volatility_score : ℕ
  pub ticks : ℤ → Option (ℤ × ℕ)
  pub tick_bitmap : ℤ → Option ℕ
  pub last_swap_timestamp : ℕ
  pub last_http_update : Option ℕ
  pub last_access_ts : ℕ

-- `PoolState::default()` at the time `now`.
abbrev pub default_pool : ℕ → PoolState
default_pool now = record {
  reserves0 = 0;
  reserves1 = 0;
  liquidity = 0;
  sqrt_price_x96 = 0;
  tick = pos 0;
  fee = 0;
  dex_type = DexType.uniswap_v2;
  is_stable = false;
  last_updated_block = 0;
  volatility_score = 0;
  ticks = λ _. none;
  tick_bitmap = λ _. none;
  last_swap_timestamp = 0;
  last_http_update = none;
  last_access_ts = now;
}

pub record GasState : Type 0 where
  pub base_fee : ℕ
  pub priority_fee : ℕ
  pub next_base_fee : ℕ
  pub max_priority_fee_per_gas : ℕ

-- `GasState::current_fees`
unfoldable pub current_fees : GasState → ℕ × ℕ × ℕ
current_fees g = (g.base_fee, g.priority_fee, g.max_priority_fee_per_gas)

-- A byte code is its bytes; a set of addresses is a list.
pub record StateMirror : Type 0 where
  pub pools : Assoc PoolState
  pub bytecodes : Assoc (List ℕ)
  pub gas_state : GasState
  pub dirty_flag : Bool
  pub current_block : ℕ
  pub last_block_timestamp : ℕ
  pub last_multicall_sync : ℕ
  pub storage_cache : ℕ → ℕ → Option ℕ
  pub sync_filter : List ℕ
  pub poisoned_accounts : Assoc Bool
  pub trader_registry : Assoc (List ℕ)

-- `StateMirror::new()` with what the two caches on disk hold.
abbrev pub new_mirror : Assoc (List ℕ) → Assoc PoolState → StateMirror
new_mirror bytecodes pools = record {
  pools = pools;
  bytecodes = bytecodes;
  gas_state = record {
    base_fee = 0;
    priority_fee = 0;
    next_base_fee = 0;
    max_priority_fee_per_gas = 0;
  };
  dirty_flag = true;
  current_block = 0;
  last_block_timestamp = 0;
  last_multicall_sync = 0;
  storage_cache = λ _ _. none;
  sync_filter = [];
  poisoned_accounts = [];
  trader_registry = [];
}
