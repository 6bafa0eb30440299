-- ===== src/Simulator/Honeypot/Laws.antt =====
-- What an answer of `check_honeypot` says of a token.
use sovereign_shadow_mev.Prelude.{
  ℕ, ◌-◌, ◌/◌, ◌^◌, ◌≤◌, ◌≡◌, refl, ap, subst, not, arith, Bool, true, false, ◌||◌, Option, none,
  some, List, [], ◌∷◌, contains, replicate, max, ltb, leb, Bool-cases, inl, inr, ◌⊎◌,
}
use sovereign_shadow_mev.Uint.{mul256}
use sovereign_shadow_mev.Constants.{core_tokens, blacklisted_tokens}
use sovereign_shadow_mev.Models.Errors.{
  Attempt, crash, err, ok, ◌>>?◌, OkOnly, OkOnly-bind, Trap, static_analysis, blacklisted,
  buy_failed, liquidity_depth,
}
use sovereign_shadow_mev.Mirror.Pools.{StateMirror}
use sovereign_shadow_mev.Mirror.Codes.{is_poisoned}
use sovereign_shadow_mev.Simulator.Evm.{
  Evm, Receipt, is_success, committed, ExecutionResult, success, transact_commit,
}
use sovereign_shadow_mev.Simulator.XRay.{xray_scan_bytecode}
use sovereign_shadow_mev.Simulator.XRay.Laws.{is_ok}
use sovereign_shadow_mev.Simulator.Honeypot.{
  amt_bytes, transfer_data, call_with, call_of, refuse_if, simulate_transfer, get_erc20_balance,
  tax_of, max_tax_of, tax_check, sell_check, buy_check, approve_check, static_check, check_honeypot,
  is_too_large,
}

-- A transfer of 0 tokens, as the standard of these tokens encodes it.
abbrev pub zero_transfer : ℕ → List ℕ
zero_transfer to = call_with (0xa9 ∷ 0x05 ∷ 0x9c ∷ 0xbb ∷ []) to (replicate 32 0)

module _ {W : Type 0} (evm : Evm W) where
  -- A transfer of 0 tokens that succeeds leaves every balance of the token as it was.
  abbrev pub KeepsBalances : ℕ → Type 0
  KeepsBalances token =
      (caller to account : ℕ) (world : W) (receipt : Receipt W)
      → evm.transact (call_of caller token (zero_transfer to)) world ≡ some receipt
      → get_erc20_balance evm receipt.world token account
        ≡ get_erc20_balance evm world token account

fails_before {ℓ κ} :
    {S : Type ℓ} {T : Type κ} (m : Attempt S) (f : S → Attempt T)
    → is_ok m ≡ false
    → is_ok (m >>? f) ≡ false
fails_before (ok a) f h = ground arith
fails_before (err e) f h = refl
fails_before crash f h = refl

fails_after {ℓ κ} :
    {S : Type ℓ} {T : Type κ} (m : Attempt S) (f : S → Attempt T)
    → ((a : S) → m ≡ ok a → is_ok (f a) ≡ false)
    → is_ok (m >>? f) ≡ false
fails_after (ok a) f h = h a refl
fails_after (err e) f h = refl
fails_after crash f h = refl

-- What gave an `Ok` result of a commit.
commit_origin :
    {W : Type 0} (found : Option (Receipt W)) (outcome : ExecutionResult) (after : W)
    → committed found ≡ ok (outcome, after)
    → (receipt : Receipt W) × (found ≡ some receipt) × (receipt.world ≡ after)
commit_origin none outcome after h = ground arith
commit_origin (some receipt) outcome after h =
    (receipt, refl, ap (λ a. elim a [ ok r ↦ r.1 | _ ↦ receipt.world ]) h)

module _ {W : Type 0} (evm : Evm W) where
  moved-KeepsBalances :
      (token from to amount account : ℕ) (world after : W) (outcome : ExecutionResult)
      → KeepsBalances evm token
      → simulate_transfer evm world token from to amount ≡ ok (outcome, after)
      → get_erc20_balance evm after token account ≡ get_erc20_balance evm world token account
  unfolding simulate_transfer transact_commit transfer_data amt_bytes
  moved-KeepsBalances token from to amount account world after outcome keeps h =
      let (receipt, found, same) =
        commit_origin (evm.transact (call_of from token (zero_transfer to)) world) outcome after
          h in
      subst (λ w. get_erc20_balance evm w token account ≡ get_erc20_balance evm world token account)
        same (keeps from to account world receipt found)

  buy_check-fails :
      (m : StateMirror) (world : W) (token pool sim_executor amount : ℕ)
      → KeepsBalances evm token
      → get_erc20_balance evm world token sim_executor ≡ ok 0
      → is_ok (buy_check evm m world token pool sim_executor amount) ≡ false
  unfolding buy_check
  buy_check-fails m world token pool sim_executor amount keeps fresh =
      fails_after (simulate_transfer evm world token pool sim_executor amount) _
        (λ (outcome, bought) moved.
          let left =
            moved-KeepsBalances token pool sim_executor amount sim_executor world bought outcome
              keeps moved in
          fails_after (refuse_if (not (is_success outcome)) buy_failed) _ (λ _ _.
            fails_after (refuse_if (is_too_large m pool amount) liquidity_depth) _
              (λ _ _. rw (left, fresh) refl)))

  -- Where the address of the check has no tokens at first, and the token keeps every balance in a
  -- successful transfer of 0 tokens, no token but a core token passes the check, whatever the
  -- amount, the mirror and the rest of the machine.
  pub check_honeypot-fails :
      (m : StateMirror) (token pool amount_in_wei sim_executor recipient : ℕ)
      → contains core_tokens token ≡ false
      → KeepsBalances evm token
      → get_erc20_balance evm
          (evm.insert_account sim_executor (10 ^ 18) (evm.open_cache m))
          token
          sim_executor
        ≡ ok 0
      → is_ok (check_honeypot evm m token pool amount_in_wei sim_executor recipient) ≡ false
  unfolding check_honeypot
  check_honeypot-fails m token pool amount_in_wei sim_executor recipient listed keeps fresh =
      let world = evm.insert_account sim_executor (10 ^ 18) (evm.open_cache m) in
      rw listed (
        fails_after (static_check m token pool) _ (λ _ _.
          fails_before (buy_check evm m world token pool sim_executor amount_in_wei) _
            (buy_check-fails m world token pool sim_executor amount_in_wei keeps fresh)))

-- What the checks before the runs establish.
abbrev pub PassesScan : StateMirror → ℕ → ℕ → Type 0
PassesScan m token pool =
    (is_poisoned m token ≡ false)
    × (is_poisoned m pool ≡ false)
    × (is_ok (xray_scan_bytecode m token) ≡ true)

refuse_if-OkOnly : (test : Bool) (trap : Trap) → OkOnly (refuse_if test trap) (λ _. test ≡ false)
refuse_if-OkOnly true trap = tt
refuse_if-OkOnly false trap = refl

is_ok-OkOnly {ℓ} : {T : Type ℓ} (m : Attempt T) → OkOnly m (λ _. is_ok m ≡ true)
is_ok-OkOnly (ok a) = refl
is_ok-OkOnly (err e) = tt
is_ok-OkOnly crash = tt

OkOnly-imp {ℓ} :
    {T : Type ℓ} (m : Attempt T) (P Q : T → Type 0)
    → OkOnly m P
    → ((a : T) → P a → Q a)
    → OkOnly m Q
OkOnly-imp (ok a) P Q h k = k a h
OkOnly-imp (err e) P Q h k = tt
OkOnly-imp crash P Q h k = tt

OkOnly-after {ℓ κ} :
    {S : Type ℓ} {T : Type κ} (m : Attempt S) (f : S → Attempt T) (Q : T → Type 0)
    → ((a : S) → OkOnly (f a) Q)
    → OkOnly (m >>? f) Q
OkOnly-after (ok a) f Q k = k a
OkOnly-after (err e) f Q k = tt
OkOnly-after crash f Q k = tt

static_check-PassesScan :
    (m : StateMirror) (token pool : ℕ)
    → OkOnly (static_check m token pool) (λ _. PassesScan m token pool)
unfolding static_check
static_check-PassesScan m token pool =
    OkOnly-bind (refuse_if (is_poisoned m token || is_poisoned m pool) static_analysis) _
      (λ _. (is_poisoned m token || is_poisoned m pool) ≡ false) _
      (refuse_if-OkOnly (is_poisoned m token || is_poisoned m pool) static_analysis)
      (λ _ clean.
        OkOnly-bind (xray_scan_bytecode m token) _ (λ _. is_ok (xray_scan_bytecode m token) ≡ true)
          _ (is_ok-OkOnly (xray_scan_bytecode m token))
          (λ _ scanned.
            OkOnly-imp (refuse_if (contains blacklisted_tokens token) blacklisted) _ _
              (refuse_if-OkOnly (contains blacklisted_tokens token) blacklisted)
              (λ _ _. (ground arith, ground arith, scanned))))

module _ {W : Type 0} (evm : Evm W) where
  tax_of-small :
      (world : W) (token recipient amount max_tax : ℕ) (outcome : ExecutionResult)
      → OkOnly (tax_of evm world token recipient amount max_tax outcome) (λ tax. tax ≤ max_tax)
  unfolding tax_of
  tax_of-small world token recipient amount max_tax (success gas output) =
      OkOnly-after (get_erc20_balance evm world token recipient) _ _ (λ received.
        let tax_bps = mul256 (amount - received) 10000 / max amount 1 in
        elim (Bool-cases (leb (2 ^ 64) tax_bps)) [
          | inl big ↦ rw big tt
          | inr fits ↦ elim (Bool-cases (ltb max_tax tax_bps)) [
            | inl high ↦ rw (fits, high) tt
            | inr low ↦ let bound : tax_bps ≤ max_tax = ground arith in rw (fits, low) bound
          ]
        ])
  tax_of-small world token recipient amount max_tax ExecutionResult.revert = omega arith
  tax_of-small world token recipient amount max_tax ExecutionResult.halt = omega arith

  tax_check-small :
      (world : W) (token pool sim_executor recipient amount : ℕ)
      → OkOnly
          (tax_check evm world token pool sim_executor recipient amount)
          (λ tax. tax ≤ max_tax_of token)
  unfolding tax_check
  tax_check-small world token pool sim_executor recipient amount =
      OkOnly-after (simulate_transfer evm world token pool sim_executor amount) _ _
        (λ (refill, refilled).
          OkOnly-after (simulate_transfer evm refilled token sim_executor recipient amount) _ _
            (λ (tax_res, taxed).
              tax_of-small taxed token recipient amount (max_tax_of token) tax_res))

  -- An answer `Ok` gives a tax of at most the token's limit; and the token is a core token, or the
  -- token and the pool are not poisoned and the token's byte code passes the scan.
  pub check_honeypot-PassesScan :
      (m : StateMirror) (token pool amount_in_wei sim_executor recipient : ℕ)
      → OkOnly (check_honeypot evm m token pool amount_in_wei sim_executor recipient) (λ tax.
        (tax ≤ max_tax_of token) × ((contains core_tokens token ≡ true) ⊎ PassesScan m token pool))
  unfolding check_honeypot
  check_honeypot-PassesScan m token pool amount_in_wei sim_executor recipient =
      elim (Bool-cases (contains core_tokens token)) [
        | inl core ↦ rw core (omega arith, inl refl)
        | inr listed ↦
            let world = evm.insert_account sim_executor (10 ^ 18) (evm.open_cache m) in
            rw listed (
              OkOnly-bind (static_check m token pool) _ (λ _. PassesScan m token pool) _
                (static_check-PassesScan m token pool)
                (λ _ passes.
                  OkOnly-after (buy_check evm m world token pool sim_executor amount_in_wei) _ _
                    (λ (received, bought).
                      OkOnly-after
                        (approve_check evm bought token sim_executor recipient amount_in_wei) _ _
                        (λ approved.
                          OkOnly-after (sell_check evm approved token pool sim_executor received) _
                            _
                            (λ sold.
                              OkOnly-imp
                                (tax_check evm sold token pool sim_executor recipient amount_in_wei)
                                _ _
                                (tax_check-small sold token pool sim_executor recipient
                                  amount_in_wei)
                                (λ tax small. (small, inr passes)))))))
      ]
