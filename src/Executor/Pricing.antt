-- ===== src/Executor/Pricing.antt =====
-- src/flash_loan_executor.rs: the checks of the costs, the two offers, and the transaction that is signed.
pub mod Laws
use sovereign_shadow_mev.Prelude.{
  ℕ, ◌+◌, ◌*◌, ◌/◌, ◌%◌, ◌^◌, Bool, true, false, not, ◌||◌, ◌&&◌, Option, none, some, List, min,
  ltb, leb, ◌==◌, if◌then◌else◌, Run, done, panic,
}
use sovereign_shadow_mev.Uint.{add256, mul256}
use sovereign_shadow_mev.Constants.{max_bribe_pct}
use sovereign_shadow_mev.Models.{Opportunity}
use sovereign_shadow_mev.Models.Errors.{
  Attempt, crash, err, ok, simulation_failed, other, budget_cap, protection, local_revert,
  scavenger_veto, signing_failed,
}
use sovereign_shadow_mev.Mirror.Pools.{current_fees}
use sovereign_shadow_mev.Bidding.Engine.{BiddingEngine, is_predator_active}
use sovereign_shadow_mev.Bidding.Bribe.{calculate_bribe}
use sovereign_shadow_mev.Bidding.Fee.{suggest_priority_fee}
use sovereign_shadow_mev.Executor.State.{FlashLoanExecutor, TransactionRequest, Outside}
use sovereign_shadow_mev.Executor.Candidates.{Candidate}

-- A stage gives its result and the executor after it, also where it fails.
abbrev pub Stage : Type 0 → Type 0
Stage T = Attempt T × FlashLoanExecutor

infixl 5 ◌>>!◌
abbrev pub ◌>>!◌ : {S T : Type 0} → Stage S → (S → FlashLoanExecutor → Stage T) → Stage T
(ok a, s) >>! f = f a s
(err e, s) >>! f = (err e, s)
(crash, s) >>! f = (crash, s)

-- The bidding engine reads the base fee of the mirror.
abbrev pub engine_of : FlashLoanExecutor → BiddingEngine
engine_of s = record (s.bidding_engine) { base_fee = s.mirror.gas_state.base_fee }

abbrev pub offered : FlashLoanExecutor → Run (ℕ × BiddingEngine) → Stage ℕ
offered s panic = (crash, s)
offered s (done (pct, engine)) = (ok pct, record s { bidding_engine = engine })

-- `calculate_bribe` at two clock readings.
unfoldable pub offer : (ℕ → ℕ → Bool) → ℕ × ℕ → Opportunity → FlashLoanExecutor → Stage ℕ
offer rises clock opp s = offered s (calculate_bribe rises (engine_of s) opp clock.0 clock.1)

-- The fee of the base layer with a fifth more, and the fee of the chain.
abbrev pub adjusted_cost : Candidate → ℕ
adjusted_cost c = add256 (mul256 c.l1_fee 120 / 100) c.l2_fee

abbrev pub bribe_of : Candidate → ℕ → ℕ
bribe_of c pct = mul256 c.net_profit pct / 100

abbrev pub min_threshold : ℕ
min_threshold = 200_000_000_000_000

-- The budget cap is a tenth of the balance, unless the balance is 0.
unfoldable pub over_budget : FlashLoanExecutor → Candidate → Bool
over_budget s c =
    let balance = s.circuit_breaker.current_balance in
    not (balance == 0) && ltb (balance / 10) (adjusted_cost c)

-- The checks that follow the first offer.
unfoldable pub check_costs : Candidate → ℕ → FlashLoanExecutor → Stage (Unit {0})
check_costs c pct s =
    let execution_cost = add256 (adjusted_cost c) (bribe_of c pct) in
    if leb c.top_sim.profit execution_cost
    then (err (simulation_failed (protection c.top_sim.profit execution_cost)), s)
    else if not c.top_sim.success
    then (err (simulation_failed local_revert), s)
    else if ltb c.net_profit min_threshold
    then (err (simulation_failed (scavenger_veto c.net_profit)), s)
    else (ok tt, s)

-- A known competitor as the trigger's sender raises the offer by 10.
unfoldable pub bump : Opportunity → ℕ → ℕ
bump opp pct = if is_predator_active opp then min max_bribe_pct (pct + 10) else pct

-- What is sent: the signed transaction with its hash, and the bribe.
pub record Order : Type 0 where
  pub signed_rlp : List ℕ
  pub tx_hash : ℕ
  pub bribe_pct : ℕ
  pub bribe_wei : ℕ
  pub request : TransactionRequest

-- The order of a signed request.
abbrev pub signed :
    TransactionRequest → Candidate → ℕ → FlashLoanExecutor → Option (List ℕ × ℕ) → Stage Order
signed request c pct s none = (err (other signing_failed), s)
signed request c pct s (some (signed_rlp, tx_hash)) = (
  ok (record {
    signed_rlp = signed_rlp;
    tx_hash = tx_hash;
    bribe_pct = pct;
    bribe_wei = bribe_of c pct;
    request = request;
  }),
  s,
)

module _ {W : Type 0} (out : Outside W) where
  abbrev pub request_for : Candidate → FlashLoanExecutor → ℕ → TransactionRequest
  request_for c s suggested = record {
    to = s.contract_address;
    from = out.signer;
    input = c.calldata;
    nonce = s.next_nonce;
    access_list = c.top_sim.access_list;
    gas_limit = (out.tenth_more c.top_sim.gas_used + 10_000) % 2 ^ 64;
    max_fee_per_gas = add256 s.mirror.gas_state.base_fee suggested;
    max_priority_fee_per_gas = suggested;
  }

  -- With the suggested fee. The fees must fit 128 bits; the nonce is used up also where the signature fails.
  unfoldable pub build_with : Candidate → ℕ → FlashLoanExecutor → Run ℕ → Stage Order
  build_with c pct s panic = (crash, s)
  build_with c pct s (done suggested) =
      let request = request_for c s suggested in
      let after = record s { next_nonce = (s.next_nonce + 1) % 2 ^ 64 } in
      if leb (2 ^ 128) request.max_fee_per_gas || leb (2 ^ 128) suggested
      then (crash, after)
      else signed request c pct after (out.sign request)

  unfoldable pub build_order : Opportunity → Candidate → ℕ → FlashLoanExecutor → Stage Order
  build_order opp c pct s =
      build_with c pct s
        (suggest_priority_fee (engine_of s) opp (current_fees s.mirror.gas_state).1)

  -- From the chosen candidate to the order.
  unfoldable pub price : Opportunity → Candidate → FlashLoanExecutor → Stage Order
  price opp c s =
      if over_budget s c
      then (err (simulation_failed budget_cap), s)
      else (offer out.rises out.first_offer opp s >>! λ first s1. check_costs c first s1 >>! λ _ s2.
          offer out.rises out.second_offer opp s2 >>! λ second s3.
          build_order opp c (bump opp second) s3)
