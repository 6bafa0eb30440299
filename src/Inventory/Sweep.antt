-- ===== src/Inventory/Sweep.antt =====
-- src/inventory_manager.rs: one call at a time.
pub mod Laws
use sovereign_shadow_mev.Prelude.{
  ℕ, ◌+◌, ◌-◌, ◌*◌, ◌%◌, ◌^◌, ◌≤◌, ◌<◌, ◌≡◌, refl, sym, subst, ap, ◌∙◌, arith, Bool, true, false,
  not, ◌&&◌, Option, none, some, List, [], ◌∷◌, ◌++◌, min, ltb, ◌==◌, if◌then◌else◌, Bool-cases,
  inl, inr, ◌⊎◌,
}
use sovereign_shadow_mev.Constants.{
  token_weth, safe_tokens, dust_threshold_wei, max_sweep_gas_price_wei, min_searcher_balance_wei,
}
use sovereign_shadow_mev.Mirror.Traders.{set_insert}

-- `nonce` is the nonce manager's counter; the registry is a set, as a list.
pub record InventoryManager : Type 0 where
  pub running : Bool
  pub harvest_registry : List ℕ
  pub nonce : ℕ

-- `InventoryManager::new`, with the safe tokens.
abbrev pub new_inventory : ℕ → InventoryManager
new_inventory nonce = record { running = false; harvest_registry = safe_tokens; nonce = nonce }

-- Whether `ensure_ready` gives `Ok`; `none` is a balance that cannot be read.
unfoldable pub ensure_ready : Option ℕ → Bool
ensure_ready none = false
ensure_ready (some balance) = not (ltb balance min_searcher_balance_wei)

unfoldable pub register_token_for_harvest : ℕ → InventoryManager → InventoryManager
register_token_for_harvest token inv =
    if not (token == token_weth) && not (token == 0)
    then record inv { harvest_registry = set_insert token inv.harvest_registry }
    else inv

-- What the provider takes, with its nonce.
pub data SweepTx : Type 0 where
  withdraw_token : ℕ → ℕ → SweepTx
  approve : ℕ → ℕ → ℕ → SweepTx
  swap_to_weth : ℕ → ℕ → ℕ → SweepTx
  unwrap_weth : ℕ → ℕ → SweepTx

-- What the network answers for a token: the contract's balance, then the account's, 0 on an error, and
-- whether the provider takes the withdrawal, the approval and the swap.
pub record TokenAnswers : Type 0 where
  pub contract_bal : ℕ
  pub balance : ℕ
  pub withdraws : Bool
  pub approves : Bool
  pub swaps : Bool

-- A transaction that the provider refuses is not sent.
abbrev pub sent_if : Bool → SweepTx → List SweepTx
sent_if true tx = tx ∷ []
sent_if false tx = []

abbrev pub next_nonce : InventoryManager → InventoryManager
next_nonce inv = record inv { nonce = (inv.nonce + 1) % 2 ^ 64 }

-- The part of the loop that pulls a token from the contract. The nonce is used up also where it is refused.
unfoldable pub pull_token : ℕ → TokenAnswers → InventoryManager → List SweepTx × InventoryManager
pull_token token net inv =
    if ltb dust_threshold_wei net.contract_bal
    then (sent_if net.withdraws (withdraw_token token inv.nonce), next_nonce inv)
    else ([], inv)

-- The part that sells the account's balance; a refused approval clears the guard, and its nonce is used up.
unfoldable pub sell_token : ℕ → TokenAnswers → InventoryManager → List SweepTx × InventoryManager
sell_token token net inv =
    let approved = next_nonce inv in
    if ltb net.balance dust_threshold_wei
    then ([], inv)
    else if not net.approves
    then ([], record approved { running = false })
    else (
      approve token net.balance inv.nonce
          ∷ sent_if net.swaps (swap_to_weth token net.balance approved.nonce),
      next_nonce approved,
    )

unfoldable pub sweep_tokens :
    (ℕ → TokenAnswers) → List ℕ → InventoryManager → List SweepTx × InventoryManager
sweep_tokens net [] inv = ([], inv)
sweep_tokens net (token ∷ tokens) inv =
    let (pulled, inv1) = pull_token token (net token) inv in
    let (sold, inv2) = sell_token token (net token) inv1 in
    let (others, inv3) = sweep_tokens net tokens inv2 in
    let (skipped, inv4) = sweep_tokens net tokens inv in
    if token == token_weth then (skipped, inv4) else (pulled ++ (sold ++ others), inv3)

-- A call that no other one runs beside, from the guard to the end.
unfoldable pub auto_sweep :
    (ℕ → TokenAnswers) → ℕ → Bool → InventoryManager → List SweepTx × InventoryManager
auto_sweep net base_fee is_open inv =
    let (sent, swept) = sweep_tokens net inv.harvest_registry (record inv { running = true }) in
    if inv.running
    then ([], inv)
    else if ltb max_sweep_gas_price_wei base_fee
    then ([], inv)
    else if is_open
    then ([], inv)
    else (sent, record swept { running = false })

-- What is withdrawn for a balance of ether and one of wrapped ether.
unfoldable pub amount_to_withdraw : ℕ → ℕ → ℕ
amount_to_withdraw eth_balance weth_balance =
    min (min (min_searcher_balance_wei * 2) (2 ^ 256 - 1) - eth_balance) weth_balance

-- `none` is an error in the reading of the balance; `takes` says whether the provider takes the transaction.
unfoldable pub unwrap_weth_if_needed :
    Option ℕ → ℕ → Bool → InventoryManager → Bool × List SweepTx × InventoryManager
unwrap_weth_if_needed none weth_balance takes inv = (false, [], inv)
unwrap_weth_if_needed (some eth_balance) weth_balance takes inv =
    if ltb eth_balance min_searcher_balance_wei && ltb 0 weth_balance
    then (
      true,
      sent_if takes (unwrap_weth (amount_to_withdraw eth_balance weth_balance) inv.nonce),
      next_nonce inv,
    )
    else (true, [], inv)
