-- ===== src/Simulator/Honeypot.antt =====
-- src/state_simulator.rs: `check_honeypot`, with the calls of a token that it runs.
pub mod Laws
use sovereign_shadow_mev.Prelude.{
  ℕ, ◌-◌, ◌*◌, ◌/◌, ◌^◌, Bool, true, false, not, ◌||◌, ◌&&◌, Option, none, some, List, [], ◌∷◌,
  ◌++◌, length, contains, replicate, max, ltb, leb, ◌==◌, if◌then◌else◌,
}
use sovereign_shadow_mev.Prelude.Assoc.{lookup}
use sovereign_shadow_mev.Uint.{mul256}
use sovereign_shadow_mev.Bytes.{from_be_bytes, to_be_bytes}
use sovereign_shadow_mev.Constants.{
  token_weth, token_virtual, token_luna, token_ai16z, core_tokens, blacklisted_tokens,
  max_ai_tax_bps, max_allowed_tax_bps,
}
use sovereign_shadow_mev.Models.Errors.{
  Attempt, Check, crash, err, ok, ◌>>?◌, simulation_failed, honeypot_detected, Trap, evm_error,
  static_analysis, blacklisted, buy_failed, liquidity_depth, ghost_token, approve_failed,
  sell_failed, liquidation_failed, gas_trap, high_tax,
}
use sovereign_shadow_mev.Mirror.Pools.{StateMirror}
use sovereign_shadow_mev.Mirror.Codes.{is_poisoned}
use sovereign_shadow_mev.Simulator.Evm.{
  TxEnv, ExecutionResult, success, is_success, Evm, transact_commit,
}
use sovereign_shadow_mev.Simulator.XRay.{xray_scan_bytecode}

-- `destination.copy_from_slice(&source)`, for two arrays of one length: both after it.
abbrev pub copy_from_slice : List ℕ → List ℕ → List ℕ × List ℕ
copy_from_slice destination source = (source, source)

-- The array `amt_bytes` after `amount.to_be_bytes::<32>().copy_from_slice(&mut amt_bytes)`: it is the
-- source of the copy, and the bytes of the amount are the destination.
unfoldable pub amt_bytes : ℕ → List ℕ
amt_bytes amount = (copy_from_slice (to_be_bytes 32 amount) (replicate 32 0)).1

-- A selector, an address and a word.
abbrev call_with : List ℕ → ℕ → List ℕ → List ℕ
call_with selector address word = selector ++ (replicate 12 0 ++ (to_be_bytes 20 address ++ word))

unfoldable pub transfer_data : ℕ → ℕ → List ℕ
transfer_data to amount = call_with (0xa9 ∷ 0x05 ∷ 0x9c ∷ 0xbb ∷ []) to (amt_bytes amount)

unfoldable pub balance_data : ℕ → List ℕ
balance_data account = call_with (0x70 ∷ 0xa0 ∷ 0x82 ∷ 0x31 ∷ []) account []

unfoldable pub approve_data : ℕ → ℕ → List ℕ
approve_data spender amount = call_with (0x09 ∷ 0x5e ∷ 0xa7 ∷ 0xb3 ∷ []) spender (amt_bytes amount)

abbrev pub call_of : ℕ → ℕ → List ℕ → TxEnv
call_of caller target calldata = record {
  caller = caller;
  transact_to = target;
  calldata = calldata;
  gas_limit = none;
}

abbrev pub trapped {ℓ} : {T : Type ℓ} → Trap → Attempt T
trapped trap = err (honeypot_detected trap)

-- `if test { return Err(HoneypotDetected(trap)) }`
abbrev pub refuse_if : Bool → Trap → Check
refuse_if test trap = if test then trapped trap else ok tt

-- `U256::from_be_slice` panics on more bytes than a number has.
abbrev pub word_of : List ℕ → Attempt ℕ
word_of output = if ltb 32 (length output) then crash else ok (from_be_bytes output)

abbrev pub max_tax_of : ℕ → ℕ
max_tax_of token =
    if (token == token_virtual) || (token == token_luna) || (token == token_ai16z)
    then max_ai_tax_bps
    else max_allowed_tax_bps

-- Whether a trade is larger than a tenth of the larger reserve.
abbrev pub is_too_large : StateMirror → ℕ → ℕ → Bool
is_too_large m pool amount = elim (lookup pool m.pools) [
  | none ↦ false
  | some p ↦ ltb (max p.reserves0 p.reserves1 / 10) amount
]

-- The checks of the code and of the lists, before anything is run.
unfoldable pub static_check : StateMirror → ℕ → ℕ → Check
static_check m token pool =
    refuse_if (is_poisoned m token || is_poisoned m pool) static_analysis >>? λ _.
    xray_scan_bytecode m token >>? λ _. refuse_if (contains blacklisted_tokens token) blacklisted

module _ {W : Type 0} (evm : Evm W) where
  unfoldable pub simulate_transfer : W → ℕ → ℕ → ℕ → ℕ → Attempt (ExecutionResult × W)
  simulate_transfer world token from to amount =
      transact_commit evm (call_of from token (transfer_data to amount)) world

  -- The call is not committed; a call that fails reads as 0.
  unfoldable pub get_erc20_balance : W → ℕ → ℕ → Attempt ℕ
  get_erc20_balance world token account =
      elim (evm.transact (call_of account token (balance_data account)) world) [
        | none ↦ err (simulation_failed evm_error)
        | some receipt ↦ elim receipt.outcome [ success gas output ↦ word_of output | _ ↦ ok 0 ]
      ]

  -- Step 3: the share of a transfer that does not arrive, in hundredths of a percent.
  unfoldable pub tax_of : W → ℕ → ℕ → ℕ → ℕ → ExecutionResult → Attempt ℕ
  tax_of world token recipient amount max_tax (success gas output) =
      get_erc20_balance world token recipient >>? λ received.
      let tax_bps = mul256 (amount - received) 10000 / max amount 1 in
      if leb (2 ^ 64) tax_bps
      then crash
      else if ltb max_tax tax_bps
      then trapped (high_tax tax_bps max_tax)
      else ok tax_bps
  tax_of world token recipient amount max_tax _ = ok 0

  -- Step 3 from the world after the sale.
  unfoldable pub tax_check : W → ℕ → ℕ → ℕ → ℕ → ℕ → Attempt ℕ
  tax_check world token pool sim_executor recipient amount =
      simulate_transfer world token pool sim_executor amount >>? λ (refill, refilled).
      simulate_transfer refilled token sim_executor recipient amount >>? λ (tax_res, taxed).
      tax_of taxed token recipient amount (max_tax_of token) tax_res

  -- Step 2: the sale of what was received.
  unfoldable pub sell_check : W → ℕ → ℕ → ℕ → ℕ → Attempt W
  sell_check world token pool sim_executor balance_received =
      get_erc20_balance world token_weth sim_executor >>? λ bal_before.
      simulate_transfer world token sim_executor pool balance_received >>? λ (sell_res, sold).
      refuse_if (not (is_success sell_res)) sell_failed >>? λ _.
      get_erc20_balance sold token_weth sim_executor >>? λ bal_after.
      refuse_if (leb bal_after bal_before && not (balance_received == 0)) liquidation_failed
      >>? λ _. elim sell_res [
        | success gas_used output ↦
            if ltb 150_000 gas_used then trapped (gas_trap gas_used) else ok sold
        | _ ↦ ok sold
      ]

  -- Step 1: what the executor has after the purchase, and the world then.
  unfoldable pub buy_check : StateMirror → W → ℕ → ℕ → ℕ → ℕ → Attempt (ℕ × W)
  buy_check m world token pool sim_executor amount =
      simulate_transfer world token pool sim_executor amount >>? λ (buy_res, bought).
      refuse_if (not (is_success buy_res)) buy_failed >>? λ _.
      refuse_if (is_too_large m pool amount) liquidity_depth >>? λ _.
      get_erc20_balance bought token sim_executor >>? λ balance_received.
      refuse_if (balance_received == 0) ghost_token >>? λ _. ok (balance_received, bought)

  unfoldable pub approve_check : W → ℕ → ℕ → ℕ → ℕ → Attempt W
  approve_check world token sim_executor recipient amount =
      transact_commit evm (call_of sim_executor token (approve_data recipient amount)) world
      >>? λ (app_res, approved).
          refuse_if (not (is_success app_res)) approve_failed >>? λ _. ok approved

  -- `sim_executor` and `recipient` are the two random addresses.
  unfoldable pub check_honeypot : StateMirror → ℕ → ℕ → ℕ → ℕ → ℕ → Attempt ℕ
  check_honeypot m token pool amount_in_wei sim_executor recipient =
      if contains core_tokens token
      then ok 0
      else (static_check m token pool >>? λ _.
          let world = evm.insert_account sim_executor (10 ^ 18) (evm.open_cache m) in
          buy_check m world token pool sim_executor amount_in_wei >>? λ (balance_received, bought).
          approve_check bought token sim_executor recipient amount_in_wei >>? λ approved.
          sell_check approved token pool sim_executor balance_received >>? λ sold.
          tax_check sold token pool sim_executor recipient amount_in_wei)
