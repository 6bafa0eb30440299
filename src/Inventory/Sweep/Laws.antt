-- ===== src/Inventory/Sweep/Laws.antt =====
-- The nonces of a sweep, and what is unwrapped.
use sovereign_shadow_mev.Prelude.{
  ℕ, ◌+◌, ◌-◌, ◌*◌, ◌%◌, ◌^◌, ◌≤◌, ◌<◌, ◌≡◌, refl, sym, subst, ap, ◌∙◌, arith, Bool, true, false,
  List, [], ◌∷◌, ◌++◌, ltb, ◌==◌, if◌then◌else◌, Bool-cases, inl, inr, ◌⊎◌,
}
use sovereign_shadow_mev.Constants.{
  token_weth, dust_threshold_wei, max_sweep_gas_price_wei, min_searcher_balance_wei,
}
use sovereign_shadow_mev.Inventory.Sweep.{
  InventoryManager, SweepTx, TokenAnswers, withdraw_token, approve, swap_to_weth, unwrap_weth,
  next_nonce, pull_token, sell_token, sweep_tokens, auto_sweep, amount_to_withdraw,
}

abbrev pub nonce_of : SweepTx → ℕ
nonce_of (withdraw_token token n) = n
nonce_of (approve token amount n) = n
nonce_of (swap_to_weth token amount n) = n
nonce_of (unwrap_weth amount n) = n

-- The transactions have the nonces from `n` on, one after another, and `next` is the one after them.
abbrev pub AreNumbered : ℕ → List SweepTx → ℕ → Type 0
AreNumbered n [] next = n ≡ next
AreNumbered n (tx ∷ txs) next = (nonce_of tx ≡ n) × AreNumbered ((n + 1) % 2 ^ 64) txs next

AreNumbered-append :
    (n m k : ℕ) (xs ys : List SweepTx)
    → AreNumbered n xs m
    → AreNumbered m ys k
    → AreNumbered n (xs ++ ys) k
AreNumbered-append n m k [] ys h g = subst (λ i. AreNumbered i ys k) (sym h) g
AreNumbered-append n m k (x ∷ xs) ys h g =
    (h.0, AreNumbered-append ((n + 1) % 2 ^ 64) m k xs ys h.1 g)

-- The provider takes all that a sweep of the tokens makes.
abbrev pub TakesAll : (ℕ → TokenAnswers) → List ℕ → Type 0
TakesAll net [] = Unit
TakesAll net (token ∷ tokens) =
    ((net token).withdraws ≡ true)
    × ((net token).approves ≡ true)
    × ((net token).swaps ≡ true)
    × TakesAll net tokens

pull_token-AreNumbered :
    (token : ℕ) (net : TokenAnswers) (inv : InventoryManager)
    → net.withdraws ≡ true
    → AreNumbered inv.nonce (pull_token token net inv).0 (pull_token token net inv).1.nonce
unfolding pull_token
pull_token-AreNumbered token net inv taken =
    elim (Bool-cases (ltb dust_threshold_wei net.contract_bal)) [
      | inl dust ↦ rw (dust, taken) (refl, refl)
      | inr none_there ↦ rw none_there refl
    ]

sell_token-AreNumbered :
    (token : ℕ) (net : TokenAnswers) (inv : InventoryManager)
    → net.approves ≡ true
    → net.swaps ≡ true
    → AreNumbered inv.nonce (sell_token token net inv).0 (sell_token token net inv).1.nonce
unfolding sell_token
sell_token-AreNumbered token net inv approved swapped =
    elim (Bool-cases (ltb net.balance dust_threshold_wei)) [
      | inl small ↦ rw small refl
      | inr dust ↦ rw (dust, approved, swapped) (refl, (refl, refl))
    ]

sweep_tokens-AreNumbered :
    (net : ℕ → TokenAnswers) (tokens : List ℕ) (inv : InventoryManager)
    → TakesAll net tokens
    → AreNumbered inv.nonce (sweep_tokens net tokens inv).0 (sweep_tokens net tokens inv).1.nonce
unfolding sweep_tokens
sweep_tokens-AreNumbered net [] inv taken = refl
sweep_tokens-AreNumbered net (token ∷ tokens) inv taken =
    let pulled = pull_token token (net token) inv in
    let sold = sell_token token (net token) pulled.1 in
    let others = sweep_tokens net tokens sold.1 in
    elim (Bool-cases (token == token_weth)) [
      | inl weth ↦ rw weth (sweep_tokens-AreNumbered net tokens inv taken.3)
      | inr other ↦ rw other (
          AreNumbered-append inv.nonce pulled.1.nonce others.1.nonce pulled.0 (sold.0 ++ others.0)
            (pull_token-AreNumbered token (net token) inv taken.0)
            (AreNumbered-append pulled.1.nonce sold.1.nonce others.1.nonce sold.0 others.0
              (sell_token-AreNumbered token (net token) pulled.1 taken.1 taken.2)
              (sweep_tokens-AreNumbered net tokens sold.1 taken.3)))
    ]

each_sweep :
    (P : List SweepTx × InventoryManager → Type 0) (running dear is_open : Bool)
    (early swept : List SweepTx × InventoryManager)
    → P early
    → P swept
    → P (if running then early else if dear then early else if is_open then early else swept)
each_sweep P true dear is_open early swept h k = h
each_sweep P false true is_open early swept h k = h
each_sweep P false false true early swept h k = h
each_sweep P false false false early swept h k = k

-- Beside a sweep in which nothing else draws a nonce and the provider takes all that it makes,
-- whatever the tokens and the balances, the transactions that are sent have the manager's nonces
-- one after another with no gap, modulo 2 ^ 64, and the manager keeps the next one.
pub auto_sweep-AreNumbered :
    (net : ℕ → TokenAnswers) (base_fee : ℕ) (is_open : Bool) (inv : InventoryManager)
    → TakesAll net inv.harvest_registry
    → AreNumbered inv.nonce
        (auto_sweep net base_fee is_open inv).0
        (auto_sweep net base_fee is_open inv).1.nonce
unfolding auto_sweep
auto_sweep-AreNumbered net base_fee is_open inv taken =
    let swept = sweep_tokens net inv.harvest_registry (record inv { running = true }) in
    each_sweep (λ (r : List SweepTx × InventoryManager). AreNumbered inv.nonce r.0 r.1.nonce)
      inv.running (ltb max_sweep_gas_price_wei base_fee) is_open ([], inv)
      (swept.0, record (swept.1) { running = false }) refl
      (sweep_tokens-AreNumbered net inv.harvest_registry (record inv { running = true }) taken)

-- A sweep of one token that the contract does not hold.
sweep_one :
    (net : ℕ → TokenAnswers) (token base_fee : ℕ) (inv : InventoryManager)
    → inv.running ≡ false
    → inv.harvest_registry ≡ token ∷ []
    → (token == token_weth) ≡ false
    → base_fee ≤ max_sweep_gas_price_wei
    → (net token).contract_bal ≤ dust_threshold_wei
    → let sold = sell_token token (net token) (record inv { running = true }) in
      auto_sweep net base_fee false inv ≡ (sold.0 ++ [], record (sold.1) { running = false })
unfolding auto_sweep sweep_tokens pull_token
sweep_one net token base_fee inv idle single other cheap small =
    let gas : ltb max_sweep_gas_price_wei base_fee ≡ false = ground arith in
    let held : ltb dust_threshold_wei (net token).contract_bal ≡ false = ground arith in
    rw (idle, single, gas, other, held) refl

sold_none :
    (token : ℕ) (net : TokenAnswers) (inv : InventoryManager)
    → dust_threshold_wei ≤ net.balance
    → net.approves ≡ false
    → sell_token token net inv ≡ ([], record (next_nonce inv) { running = false })
unfolding sell_token
sold_none token net inv much refused =
    let more : ltb net.balance dust_threshold_wei ≡ false = ground arith in rw (more, refused) refl

sold_both :
    (token : ℕ) (net : TokenAnswers) (inv : InventoryManager)
    → dust_threshold_wei ≤ net.balance
    → net.approves ≡ true
    → net.swaps ≡ true
    → (sell_token token net inv).0
      ≡ approve token net.balance inv.nonce
        ∷ swap_to_weth token net.balance ((inv.nonce + 1) % 2 ^ 64)
        ∷ []
unfolding sell_token
sold_both token net inv much taken swapped =
    let more : ltb net.balance dust_threshold_wei ≡ false = ground arith in
    rw (more, taken, swapped) refl

-- In two sweeps, one after the other, of one token that is not the wrapped ether and that the
-- account holds and the contract does not, with cheap gas and a closed breaker, nothing else that
-- draws a nonce, and a provider that refuses the approval of the first sweep and takes all of the
-- second: the first one sends nothing, and the second one sends its approval and its swap with the
-- two nonces after the one that was refused, which no transaction has.
pub auto_sweep-gap :
    (net later : ℕ → TokenAnswers) (token base_fee : ℕ) (inv : InventoryManager)
    → inv.running ≡ false
    → inv.harvest_registry ≡ token ∷ []
    → (token == token_weth) ≡ false
    → base_fee ≤ max_sweep_gas_price_wei
    → (net token).contract_bal ≤ dust_threshold_wei
    → dust_threshold_wei ≤ (net token).balance
    → (net token).approves ≡ false
    → (later token).contract_bal ≤ dust_threshold_wei
    → dust_threshold_wei ≤ (later token).balance
    → (later token).approves ≡ true
    → (later token).swaps ≡ true
    → let (sent, after) = auto_sweep net base_fee false inv in
      (sent ≡ [])
      × ((auto_sweep later base_fee false after).0
          ≡ approve token (later token).balance ((inv.nonce + 1) % 2 ^ 64)
            ∷ swap_to_weth token (later token).balance (((inv.nonce + 1) % 2 ^ 64 + 1) % 2 ^ 64)
            ∷ [])
auto_sweep-gap net later token base_fee inv idle single other cheap c1 b1 refused c2 b2 taken
      swapped =
    let used : InventoryManager = record (next_nonce inv) { running = false } in
    let nothing = sold_none token (net token) (record inv { running = true }) b1 refused in
    let first : auto_sweep net base_fee false inv ≡ ([], used) =
      sweep_one net token base_fee inv idle single other cheap c1
      ∙ ap (λ (r : List SweepTx × InventoryManager). (r.0 ++ [], record (r.1) { running = false }))
          nothing in
    let second = sweep_one later token base_fee used refl single other cheap c2 in
    let both = sold_both token (later token) (record used { running = true }) b2 taken swapped in
    subst
      (λ (r : List SweepTx × InventoryManager).
        (r.0 ≡ [])
        × ((auto_sweep later base_fee false r.1).0
            ≡ approve token (later token).balance ((inv.nonce + 1) % 2 ^ 64)
              ∷ swap_to_weth token (later token).balance (((inv.nonce + 1) % 2 ^ 64 + 1) % 2 ^ 64)
              ∷ []))
      (sym first)
      (
        refl,
        ap (λ (r : List SweepTx × InventoryManager). r.0) second
            ∙ ap (λ (txs : List SweepTx). txs ++ []) both,
      )

-- With less ether than the minimum and some wrapped ether, what is unwrapped is never more than there is,
-- and brings the ether to twice the minimum exactly, or takes all that there is.
pub amount_to_withdraw-refills :
    (eth_balance weth_balance : ℕ)
    → eth_balance < min_searcher_balance_wei
    → (amount_to_withdraw eth_balance weth_balance ≤ weth_balance)
      × ((eth_balance + amount_to_withdraw eth_balance weth_balance ≡ min_searcher_balance_wei * 2)
          ⊎ (amount_to_withdraw eth_balance weth_balance ≡ weth_balance))
unfolding amount_to_withdraw
amount_to_withdraw-refills eth weth low = (
  omega arith,
  elim (Bool-cases (ltb weth (min_searcher_balance_wei * 2 - eth))) [
    | inl all ↦ inr (ground arith)
    | inr enough ↦ inl (ground arith)
  ],
)
