-- ===== src/Constants.antt =====
-- src/constants.rs: the thresholds and the sets of addresses that the parts read.
use sovereign_shadow_mev.Prelude.{ℕ, ◌*◌, ◌^◌, List, [], ◌∷◌}

abbrev pub token_weth : ℕ
token_weth = 0x4200000000000000000000000000000000000006

abbrev pub token_usdc : ℕ
token_usdc = 0x833589fcd6edb6e08f4c7c32d4f71b54bda02913

abbrev pub token_dai : ℕ
token_dai = 0x50c5725949a6f0c72e6c4a641f24049a917db0cb

abbrev pub token_virtual : ℕ
token_virtual = 0x0bfbcf9fa4f9c56b0f40a671ad40e0805a091865

abbrev pub token_luna : ℕ
token_luna = 0xd533a949740bb3306d119cc777fa900ba034cd52

abbrev pub token_ai16z : ℕ
token_ai16z = 0x30c90069678174577b0ac49969d7070f7915b597

abbrev pub pool_univ3_weth_usdc_005 : ℕ
pool_univ3_weth_usdc_005 = 0xd0b53d9277642d899df5c87a3966a349a798f224

abbrev pub pool_univ3_weth_usdc_030 : ℕ
pool_univ3_weth_usdc_030 = 0x4c36388be6f416a29c8d8eee819bb35ed3737a01

abbrev pub pool_baseswap_weth_usdc : ℕ
pool_baseswap_weth_usdc = 0x7e3411b04766089cfaa52db688855356a12f05d1

abbrev pub pool_sushi_weth_usdc : ℕ
pool_sushi_weth_usdc = 0x21943f679ed5f05329883584860d49c039237685

abbrev pub top_100_pools : List ℕ
top_100_pools =
    0xcdac0d6c6c59727a65f871236188350531885c43 ∷ 0xd0b53d9277642d899df5c87a3966a349a798f224
    ∷ 0x4c36388be6f416a29c8d8eee819bb35ed3737a01 ∷ 0x21943f679ed5f05329883584860d49c039237685
    ∷ 0x7e3411b04766089cfaa52db688855356a12f05d1 ∷ 0xc9034c3e7242654fd148e934814510d0e9436db4
    ∷ 0x4b0aaf3ebb163dd45f663b38b6d93f6093ebc2d3 ∷ 0x3062ad446da2cfdb10266e06bee30f33ba2a6b41
    ∷ 0xf0c57173e35181d061033a38166d5726c4a641f2 ∷ 0x7f670f78b17dec44d5ef68a48740b6f8849cc2e6
    ∷ 0x532f27101965dd16442e59d40670fa5ad5f3fe91 ∷ 0x2ae3f1ec7f1f5012cfeab0185bfc7aa3cf0dec22
    ∷ 0x420dd381b31aef6683db6b902084c0bac2d1b5d5 ∷ 0x0bfbcf9fa4f9c56b0f40a671ad40e0805a091865
    ∷ 0x0bfbcf9fa4f9c56b0f40a671ad40e0805a091865 ∷ 0x30c90069678174577b0ac49969d7070f7915b597
    ∷ 0x04c9f118a4864700721a163744021d21db27c11f ∷ 0x3d2d7681335a74be482d207137f814ba688849e8
    ∷ 0x532f27101965dd16442e59d40670fa5ad5f3fe91 ∷ 0x4ed4e862860bed51a9570b96d89af5e1b0efefed ∷ []

abbrev pub core_tokens : List ℕ
core_tokens = token_weth ∷ token_usdc ∷ token_dai ∷ []

abbrev pub core_pools : List ℕ
core_pools =
    pool_univ3_weth_usdc_005 ∷ pool_univ3_weth_usdc_030 ∷ pool_baseswap_weth_usdc
    ∷ pool_sushi_weth_usdc ∷ []

abbrev pub known_competitors : List ℕ
known_competitors = 0x000000000000084e0ad24b420f9bdb26b6fb0d0f ∷ []

abbrev pub bidding_tiers : List (ℕ × ℕ)
bidding_tiers = (0, 5) ∷ (10 ^ 15, 10) ∷ (10 ^ 16, 20) ∷ (10 ^ 17, 40) ∷ (10 ^ 18, 60) ∷ []

abbrev pub max_bribe_pct : ℕ
max_bribe_pct = 99

abbrev pub min_builder_tip_wei : ℕ
min_builder_tip_wei = 10 ^ 12

abbrev pub micro_profit_threshold_wei : ℕ
micro_profit_threshold_wei = 10 ^ 13

abbrev pub max_builder_latency_ms : ℕ
max_builder_latency_ms = 100

abbrev pub max_node_lag_seconds : ℕ
max_node_lag_seconds = 10

abbrev pub min_searcher_balance_wei : ℕ
min_searcher_balance_wei = 5 * 10 ^ 14

abbrev pub gas_vault_percentage : ℕ
gas_vault_percentage = 5

abbrev pub gas_vault_address : ℕ
gas_vault_address = 0x54d444d3873fdffe7016ebb535388cef4983705b

abbrev pub pool_hotness_ttl_sec : ℕ
pool_hotness_ttl_sec = 1800

abbrev pub max_alpha_liquidity_usd : ℕ
max_alpha_liquidity_usd = 40_000

abbrev pub estimated_eth_price : ℕ
estimated_eth_price = 2500

abbrev pub max_ai_tax_bps : ℕ
max_ai_tax_bps = 100

abbrev pub max_allowed_tax_bps : ℕ
max_allowed_tax_bps = 300

abbrev pub min_unique_traders : ℕ
min_unique_traders = 5

abbrev pub simulation_gas_limit : ℕ
simulation_gas_limit = 600_000

abbrev pub max_branch_loss_bps : ℕ
max_branch_loss_bps = 1000

-- The entry of the only chain.
abbrev pub blacklisted_tokens : List ℕ
blacklisted_tokens = []

abbrev pub max_hops : ℕ
max_hops = 6

abbrev pub event_v2_pair_created : ℕ
event_v2_pair_created = 0x0d3648bd0f6ba80134a33ba9275ac585d9d315f0ad835062d573067ad61d5733

abbrev pub event_v3_pool_created : ℕ
event_v3_pool_created = 0x783cca1c0412dd0d695e784568c96da2e9c22ffc959087dddeaf319803d01584

abbrev pub event_aero_pool_created : ℕ
event_aero_pool_created = 0x212847ad1f2f1ad0d76077f4a7f5f3e728cc2ac818eb64fed8004e115fbcca67

abbrev pub base_aerodrome_factory : ℕ
base_aerodrome_factory = 0x420dd381b31aef6683db6b902084c0bac2d1b5d5

abbrev pub base_sushiswap_factory : ℕ
base_sushiswap_factory = 0x71524b9573c8d199127e09e2108269128355eea0

abbrev pub base_pancakeswap_factory : ℕ
base_pancakeswap_factory = 0x0bfbcf9fa4f9c56b0f40a671ad40e0805a091865

abbrev pub base_baseswap_factory : ℕ
base_baseswap_factory = 0xfda619b6d20975be8074d3315450bbba58456b12

abbrev pub base_maverick_factory : ℕ
base_maverick_factory = 0x3708d64936496924f2b1853b0287515089304386

abbrev pub dust_threshold_wei : ℕ
dust_threshold_wei = 100_000_000_000_000

abbrev pub max_sweep_gas_price_wei : ℕ
max_sweep_gas_price_wei = 50_000_000

-- The entry of the only chain.
abbrev pub safe_tokens : List ℕ
safe_tokens =
    token_weth ∷ token_usdc ∷ token_dai ∷ 0x940181a94a35a4569e4529a3cdfb74e38fd98631
    ∷ 0x4ed4e862860bed51a9570b96d89af5e1b0efefed ∷ []
