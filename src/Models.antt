-- ===== src/Models.antt =====
-- src/models.rs: the data that the parts exchange. An address is a number below 2 ^ 160, a hash or an
-- amount one below 2 ^ 256, and `Bytes` a list of bytes.
pub mod Encode
pub mod Errors
use sovereign_shadow_mev.Prelude.{
  ℕ, Bool, true, false, List, [], Option, none, some, ◌==◌, if◌then◌else◌,
}

pub data Chain : Type 0 where
  base : Chain

unfoldable pub try_from_id : ℕ → Option Chain
try_from_id id = if id == 8453 then some base else none

pub data DexName : Type 0 where
  uniswap_v2 uniswap_v3 sushi_swap aerodrome base_swap pancake_swap maverick permit2 cow_swap
        uniswap_x :
      DexName

pub data DexType : Type 0 where
  uniswap_v2 uniswap_v3 maverick_v2 aerodrome : DexType

-- `dex_type as u8`
unfoldable pub dex_type_id : DexType → ℕ
dex_type_id DexType.uniswap_v2 = 0
dex_type_id DexType.uniswap_v3 = 1
dex_type_id DexType.maverick_v2 = 2
dex_type_id DexType.aerodrome = 3

pub record Hop : Type 0 where
  pub pool : ℕ
  pub pool_address : ℕ
  pub pool_address_label : Option (List ℕ)
  pub token_in : ℕ
  pub token_out : ℕ
  pub dex_type : DexType
  pub dex_name : DexName
  pub zero_for_one : Bool
  pub is_stable : Bool
  pub fee : Option ℕ
  pub static_calldata : List ℕ
  pub gas_cost : ℕ
  pub id : ℕ
  pub success_prob : ℕ

-- `Hop::default()`
abbrev pub default_hop : Hop
default_hop = record {
  pool = 0;
  pool_address = 0;
  pool_address_label = none;
  token_in = 0;
  token_out = 0;
  dex_type = DexType.uniswap_v2;
  dex_name = DexName.uniswap_v2;
  zero_for_one = false;
  is_stable = false;
  fee = none;
  static_calldata = [];
  gas_cost = 0;
  id = 0;
  success_prob = 0;
}

pub record SwapInfo : Type 0 where
  pub dex : DexName
  pub router : ℕ
  pub token_in : ℕ
  pub token_out : ℕ
  pub amount_in : ℕ
  pub amount_out_min : ℕ
  pub to : ℕ
  pub fee : Option ℕ
  pub permit2_nonce : Option ℕ

pub record MempoolTx : Type 0 where
  pub payload : List ℕ
  pub hash : ℕ
  pub to : Option ℕ

pub data Lender : Type 0 where
  balancer aave_v3 uniswap_v2 uniswap_v3 aerodrome maker_dao morpho_blue curve : Lender

-- `Lender::id`
unfoldable pub lender_id : Lender → ℕ
lender_id Lender.balancer = 0
lender_id Lender.aave_v3 = 1
lender_id _ = 2

pub record ArbitragePath : Type 0 where
  pub hops : List Hop
  pub loans : List (ℕ × ℕ)
  pub lender : Lender

-- `Path`: `hash` identifies the route, `total_gas` is an estimate.
pub record Route : Type 0 where
  pub hops : List Hop
  pub hash : ℕ
  pub total_gas : ℕ

-- An `Opportunity`, less `profit_details`, which no part writes. `id` is the number in `cycle-…`.
pub record Opportunity : Type 0 where
  pub id : ℕ
  pub path : Route
  pub expected_profit : ℕ
  pub gas_cost : ℕ
  pub gas_estimate : ℕ
  pub base_fee : ℕ
  pub priority_fee : ℕ
  pub input_token : ℕ
  pub input_amount : ℕ
  pub executor_address : ℕ
  pub is_whale_trigger : Bool
  pub chain : Chain
  pub trigger_gas_price : Option ℕ
  pub trigger_sender : Option ℕ
  pub pending_txs : List MempoolTx
  pub success_prob : ℕ
  pub static_calldata : List ℕ

-- `Opportunity::default()`
abbrev pub default_opportunity : Opportunity
default_opportunity = record {
  id = 0;
  path = record { hops = []; hash = 0; total_gas = 0 };
  expected_profit = 0;
  gas_cost = 0;
  gas_estimate = 0;
  base_fee = 0;
  priority_fee = 0;
  input_token = 0;
  input_amount = 0;
  executor_address = 0;
  is_whale_trigger = false;
  chain = base;
  trigger_gas_price = none;
  trigger_sender = none;
  pending_txs = [];
  success_prob = 0;
  static_calldata = [];
}

pub record Bundle : Type 0 where
  pub transactions : List (List ℕ)
  pub target_block : ℕ
  pub bribe : ℕ

-- `Bundle::new`
abbrev pub new_bundle : Bundle
new_bundle = record { transactions = []; target_block = 0; bribe = 0 }

unfoldable pub set_bribe : Bundle → ℕ → Bundle
set_bribe bundle bribe = record bundle { bribe = bribe }
