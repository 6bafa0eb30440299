-- ===== src/Executor/Candidates/Laws.antt =====
-- What the chosen candidate is.
use sovereign_shadow_mev.Prelude.{
  ℕ, ◌-◌, ◌≡◌, refl, arith, true, ◌&&◌, Option, none, some, List, [], ◌∷◌, ltb, Run, done, panic,
  Bool-cases, inl, inr,
}
use sovereign_shadow_mev.Uint.{add256}
use sovereign_shadow_mev.Models.{Opportunity, Lender, balancer, aave_v3}
use sovereign_shadow_mev.Models.Errors.{ok, ◌>>?◌, attempt, OkOnly, OkOnly-bind}
use sovereign_shadow_mev.Breaker.DataFee.{EcotoneScalars, estimate_l1_fee}
use sovereign_shadow_mev.Simulator.Strategy.{SimResult}
use sovereign_shadow_mev.Executor.State.{FlashLoanExecutor, Outside}
use sovereign_shadow_mev.Executor.Candidates.{
  Candidate, is_profitable, is_robust, candidate_of, better, consider, best_of, chosen, or_zero,
  select_candidate,
}

-- The net profit is the profit less the fees.
abbrev pub IsPriced : Candidate → Type 0
IsPriced c = c.net_profit ≡ c.top_sim.profit - add256 c.l1_fee c.l2_fee

-- A priced candidate whose run succeeds with the minimal profit.
abbrev pub IsSelected : ℕ → Candidate → Type 0
IsSelected min_profit_wei c = IsPriced c × (is_profitable min_profit_wei c.top_sim ≡ true)

abbrev AllSelected : ℕ → Option Candidate → Type 0
AllSelected min_profit_wei none = Unit
AllSelected min_profit_wei (some c) = IsSelected min_profit_wei c

better-AllSelected :
    (m : ℕ) (best : Option Candidate) (c : Candidate)
    → AllSelected m best
    → IsSelected m c
    → AllSelected m (better best c)
better-AllSelected m none c h k = k
better-AllSelected m (some b) c h k = elim (Bool-cases (ltb b.adjusted_net c.adjusted_net)) [
  | inl more ↦ rw more k
  | inr less ↦ rw less h
]

module _ (min_profit_wei total_gas_price : ℕ) (l1_calc : EcotoneScalars) where
  add_priced :
      (best : Option Candidate) (lender : Lender) (calldata : List ℕ) (top_sim : SimResult)
      (fee : Run (Option ℕ))
      → AllSelected min_profit_wei best
      → is_profitable min_profit_wei top_sim ≡ true
      → OkOnly
          (attempt fee >>? λ l1_fee.
            ok
              (better best (candidate_of total_gas_price lender top_sim calldata (or_zero l1_fee))))
          (AllSelected min_profit_wei)
  unfolding candidate_of
  add_priced best lender calldata top_sim panic h good = tt
  add_priced best lender calldata top_sim (done fee) h good =
      better-AllSelected min_profit_wei best
        (candidate_of total_gas_price lender top_sim calldata (or_zero fee)) h (refl, good)

  consider-AllSelected :
      (best : Option Candidate) (lender : Lender) (calldata : List ℕ) (results : List SimResult)
      → AllSelected min_profit_wei best
      → OkOnly
          (consider min_profit_wei total_gas_price l1_calc best lender calldata results)
          (AllSelected min_profit_wei)
  unfolding consider
  consider-AllSelected best lender calldata [] h = h
  consider-AllSelected best lender calldata (top_sim ∷ others) h =
      elim (Bool-cases
        (is_profitable min_profit_wei top_sim && is_robust min_profit_wei top_sim.profit others)) [
          | inr poor ↦ rw poor h
          | inl good ↦ rw good (
              add_priced best lender calldata top_sim (estimate_l1_fee l1_calc calldata) h
                (ground arith))
        ]

  best_of-AllSelected :
      (calldata1 : List ℕ) (results1 : List SimResult) (calldata2 : List ℕ)
      (results2 : List SimResult)
      → OkOnly
          (best_of min_profit_wei total_gas_price l1_calc calldata1 results1 calldata2 results2)
          (AllSelected min_profit_wei)
  unfolding best_of
  best_of-AllSelected calldata1 results1 calldata2 results2 =
      OkOnly-bind (consider min_profit_wei total_gas_price l1_calc none balancer calldata1 results1)
        _ _ _ (consider-AllSelected none balancer calldata1 results1 tt)
        (λ first h. consider-AllSelected first aave_v3 calldata2 results2 h)

-- A chosen candidate is priced, and its run succeeds with at least the minimal profit.
pub select_candidate-IsSelected :
    {W : Type 0} (s : FlashLoanExecutor) (opp : Opportunity) (out : Outside W)
    → OkOnly (select_candidate s opp out) (IsSelected s.min_profit_wei)
unfolding select_candidate
select_candidate-IsSelected s opp out =
    OkOnly-bind _ chosen _ _ (best_of-AllSelected s.min_profit_wei _ s.l1_calc _ _ _ _) (λ best h.
      elim best
          as (λ b.
            AllSelected s.min_profit_wei b → OkOnly (chosen b) (IsSelected s.min_profit_wei)) [
              | none ↦ λ _. tt
              | some c ↦ λ k. k
            ]
        h)
