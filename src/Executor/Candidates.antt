-- ===== src/Executor/Candidates.antt =====
-- src/flash_loan_executor.rs: the choice of the lender.
pub mod Laws
use sovereign_shadow_mev.Prelude.{
  ℕ, ◌+◌, ◌-◌, ◌*◌, ◌/◌, ◌^◌, Bool, true, false, ◌||◌, ◌&&◌, Option, none, some, List, [], ◌∷◌, max,
  ltb, leb, ◌==◌, if◌then◌else◌,
}
use sovereign_shadow_mev.Uint.{add256, mul256}
use sovereign_shadow_mev.Constants.{max_branch_loss_bps}
use sovereign_shadow_mev.Models.{Opportunity, ArbitragePath, Lender, balancer, aave_v3}
use sovereign_shadow_mev.Models.Encode.{encode_ghost_multi}
use sovereign_shadow_mev.Models.Errors.{
  Attempt, err, ok, ◌>>?◌, attempt, simulation_failed, no_candidate,
}
use sovereign_shadow_mev.Mirror.Pools.{current_fees}
use sovereign_shadow_mev.Breaker.DataFee.{EcotoneScalars, estimate_l1_fee}
use sovereign_shadow_mev.Simulator.Strategy.{SimResult, run_branch_simulation}
use sovereign_shadow_mev.Executor.State.{FlashLoanExecutor, Outside}

-- `best_candidate`
pub record Candidate : Type 0 where
  pub lender : Lender
  pub top_sim : SimResult
  pub calldata : List ℕ
  pub net_profit : ℕ
  pub l1_fee : ℕ
  pub l2_fee : ℕ
  pub adjusted_net : ℕ

unfoldable pub build_calldata_with_lender : (List ℕ → List ℕ) → ℕ → Opportunity → Lender → List ℕ
build_calldata_with_lender abi_encode min_profit_wei opp lender =
    let loans = (opp.input_token, opp.input_amount) ∷ [] in
    let path : ArbitragePath = record { hops = opp.path.hops; loans = loans; lender = lender } in
    abi_encode (encode_ghost_multi path loans min_profit_wei)

-- A run that succeeds with at least the minimal profit.
abbrev pub is_profitable : ℕ → SimResult → Bool
is_profitable min_profit_wei r = r.success && leb min_profit_wei r.profit

-- The other branches lose at most a tenth of the first run's profit.
unfoldable pub is_robust : ℕ → ℕ → List SimResult → Bool
is_robust min_profit_wei top_profit [] = true
is_robust min_profit_wei top_profit (r ∷ rs) =
    is_profitable min_profit_wei r
    && leb (mul256 (top_profit - r.profit) 10000 / max top_profit 1) max_branch_loss_bps
    && is_robust min_profit_wei top_profit rs

-- The bonus of the first lender.
abbrev pub bias : Lender → ℕ
bias Lender.balancer = 50_000_000_000_000
bias _ = 0

abbrev pub or_zero : Option ℕ → ℕ
or_zero none = 0
or_zero (some fee) = fee

unfoldable pub candidate_of : ℕ → Lender → SimResult → List ℕ → ℕ → Candidate
candidate_of total_gas_price lender top_sim calldata l1_fee =
    let l2_fee = mul256 top_sim.gas_used total_gas_price in
    let net_profit = top_sim.profit - add256 l1_fee l2_fee in
    record {
      lender = lender;
      top_sim = top_sim;
      calldata = calldata;
      net_profit = net_profit;
      l1_fee = l1_fee;
      l2_fee = l2_fee;
      adjusted_net = add256 net_profit (bias lender);
    }

-- The better one of two; the earlier one stays where they are equal.
abbrev pub better : Option Candidate → Candidate → Option Candidate
better none c = some c
better (some best) c = if ltb best.adjusted_net c.adjusted_net then some c else some best

module _ (min_profit_wei total_gas_price : ℕ) (l1_calc : EcotoneScalars) where
  -- One lender's runs, the first run in the place of the top branch.
  unfoldable pub consider :
      Option Candidate → Lender → List ℕ → List SimResult → Attempt (Option Candidate)
  consider best lender calldata [] = ok best
  consider best lender calldata (top_sim ∷ others) =
      if is_profitable min_profit_wei top_sim && is_robust min_profit_wei top_sim.profit others
      then (attempt (estimate_l1_fee l1_calc calldata) >>? λ l1_fee.
          ok (better best (candidate_of total_gas_price lender top_sim calldata (or_zero l1_fee))))
      else ok best

  -- The two lenders, the cheaper one first.
  unfoldable pub best_of :
      List ℕ → List SimResult → List ℕ → List SimResult → Attempt (Option Candidate)
  best_of calldata1 results1 calldata2 results2 =
      consider none balancer calldata1 results1 >>? λ first.
      consider first aave_v3 calldata2 results2

abbrev pub chosen : Option Candidate → Attempt Candidate
chosen none = err (simulation_failed no_candidate)
chosen (some c) = ok c

module _ {W : Type 0} where
  -- The runs of both lenders and the choice between them.
  unfoldable pub select_candidate : FlashLoanExecutor → Opportunity → Outside W → Attempt Candidate
  select_candidate s opp out =
      let fees = current_fees s.mirror.gas_state in
      let data_for = λ (lender : Lender).
        build_calldata_with_lender out.abi_encode s.min_profit_wei opp lender in
      let runs_of = λ (lender : Lender).
        run_branch_simulation out.evm (out.random lender) s.mirror opp (data_for lender)
          s.contract_address s.address in
      best_of s.min_profit_wei (add256 fees.0 fees.1) s.l1_calc (data_for balancer)
        (runs_of balancer) (data_for aave_v3) (runs_of aave_v3)
      >>? chosen
