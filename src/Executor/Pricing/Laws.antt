-- ===== src/Executor/Pricing/Laws.antt =====
-- What an order says of its candidate: the costs and the bribe are covered by the profit.
use sovereign_shadow_mev.Prelude.{
  ℕ, ◌+◌, ◌*◌, ◌/◌, ◌%◌, ◌^◌, ◌≤◌, ◌≡◌, refl, ◌∙◌, arith, Bool, true, ◌||◌, Option, none, some,
  List, ltb, leb, Run, done, panic, Bool-cases, inl, inr, ◌⊎◌,
}
use sovereign_shadow_mev.Prelude.Division.{mul-le}
use sovereign_shadow_mev.Uint.{add256, mul256}
use sovereign_shadow_mev.Constants.{max_bribe_pct}
use sovereign_shadow_mev.Models.{Opportunity}
use sovereign_shadow_mev.Models.Errors.{Attempt, crash, err, ok, OkOnly}
use sovereign_shadow_mev.Mirror.Pools.{current_fees}
use sovereign_shadow_mev.Bidding.Engine.{BiddingEngine}
use sovereign_shadow_mev.Bidding.Bribe.{calculate_bribe}
use sovereign_shadow_mev.Bidding.Bribe.Laws.{OfferAtMost, calculate_bribe-OfferAtMost}
use sovereign_shadow_mev.Bidding.Fee.{suggest_priority_fee}
use sovereign_shadow_mev.Executor.State.{FlashLoanExecutor, TransactionRequest, Outside}
use sovereign_shadow_mev.Executor.Candidates.{Candidate}
use sovereign_shadow_mev.Executor.Candidates.Laws.{IsPriced}
use sovereign_shadow_mev.Executor.Broadcast.Laws.{SameLocks}
use sovereign_shadow_mev.Executor.Pricing.{
  Stage, ◌>>!◌, engine_of, offered, offer, adjusted_cost, bribe_of, min_threshold, over_budget,
  check_costs, bump, Order, signed, request_for, build_with, build_order, price,
}

-- A stage from `s` leaves the locks, and its result, if there is one, satisfies `P`.
abbrev pub Keeps : {T : Type 0} → FlashLoanExecutor → (T → Type 0) → Stage T → Type 0
Keeps s P (result, t) = SameLocks s t × OkOnly result P

pub SameLocks-trans : (s t u : FlashLoanExecutor) → SameLocks s t → SameLocks t u → SameLocks s u
SameLocks-trans s t u h k = (k.0 ∙ h.0, k.1 ∙ h.1, k.2 ∙ h.2)

-- A stage that ends in the state `t` with the result `m`, and the stages after it.
pub Keeps-then :
    {S T : Type 0} (s t : FlashLoanExecutor) (m : Attempt S) (f : S → FlashLoanExecutor → Stage T)
    (P : S → Type 0) (Q : T → Type 0)
    → SameLocks s t
    → OkOnly m P
    → ((a : S) → P a → Keeps t Q (f a t))
    → Keeps s Q ((m, t) >>! f)
Keeps-then s t (ok a) f P Q same h k =
    let later = k a h in (SameLocks-trans s t (f a t).1 same later.0, later.1)
Keeps-then s t (err e) f P Q same h k = (same, tt)
Keeps-then s t crash f P Q same h k = (same, tt)

Keeps-bind :
    {S T : Type 0} (s : FlashLoanExecutor) (m : Stage S) (f : S → FlashLoanExecutor → Stage T)
    (P : S → Type 0) (Q : T → Type 0)
    → Keeps s P m
    → ((a : S) (t : FlashLoanExecutor) → P a → Keeps t Q (f a t))
    → Keeps s Q (m >>! f)
Keeps-bind s (m, t) f P Q h k = Keeps-then s t m f P Q h.0 h.1 (λ a. k a t)

offered-at_most :
    (s : FlashLoanExecutor) (made : Run (ℕ × BiddingEngine))
    → OfferAtMost max_bribe_pct made
    → Keeps s (λ pct. pct ≤ max_bribe_pct) (offered s made)
offered-at_most s panic h = ((refl, refl, refl), tt)
offered-at_most s (done (pct, engine)) h = ((refl, refl, refl), h)

offer-at_most :
    (rises : ℕ → ℕ → Bool) (clock : ℕ × ℕ) (opp : Opportunity) (s : FlashLoanExecutor)
    → Keeps s (λ pct. pct ≤ max_bribe_pct) (offer rises clock opp s)
unfolding offer
offer-at_most rises clock opp s =
    offered-at_most s (calculate_bribe rises (engine_of s) opp clock.0 clock.1)
      (calculate_bribe-OfferAtMost rises (engine_of s) opp clock.0 clock.1)

bump-at_most : (opp : Opportunity) (pct : ℕ) → pct ≤ max_bribe_pct → bump opp pct ≤ max_bribe_pct
unfolding bump
bump-at_most opp pct h = ground arith

-- What the checks of the costs establish of a candidate.
abbrev IsWorth : Candidate → Type 0
IsWorth c = (min_threshold ≤ c.net_profit) × (c.top_sim.success ≡ true)

check_costs-IsWorth :
    (c : Candidate) (pct : ℕ) (s : FlashLoanExecutor)
    → Keeps s (λ _. IsWorth c) (check_costs c pct s)
unfolding check_costs
check_costs-IsWorth c pct s =
    let cost = add256 (adjusted_cost c) (bribe_of c pct) in
    elim (Bool-cases (leb c.top_sim.profit cost)) [
      | inl dear ↦ rw dear ((refl, refl, refl), tt)
      | inr cheap ↦ elim (Bool-cases (c.top_sim.success)) [
        | inr failed ↦ rw (cheap, failed) ((refl, refl, refl), tt)
        | inl good ↦ elim (Bool-cases (ltb c.net_profit min_threshold)) [
          | inl poor ↦ rw (cheap, good, poor) ((refl, refl, refl), tt)
          | inr rich ↦
              let enough : min_threshold ≤ c.net_profit = ground arith in
              rw (cheap, good, rich) ((refl, refl, refl), (enough, refl))
        ]
      ]
    ]

bribe_small : (net pct : ℕ) → pct ≤ 99 → mul256 net pct / 100 ≤ net * 99 / 100
bribe_small net pct h = omega (arith, mul-le net pct net 99 (omega arith) h)

-- The order is made of the candidate that was selected: what is signed is its request, which carries the
-- candidate's data; the profit of its run covers the bribe, both fees and one percent of the minimal net profit
-- more; the adjusted fees are within the budget.
abbrev pub IsCovered :
    (TransactionRequest → Option (List ℕ × ℕ)) → Attempt Candidate → ℕ → Order → Type 0
IsCovered sign selected balance order =
    (c : Candidate) × (selected ≡ ok c)
    × (order.request.input ≡ c.calldata)
    × (sign order.request ≡ some (order.signed_rlp, order.tx_hash))
    × (order.bribe_wei + add256 c.l1_fee c.l2_fee + min_threshold / 100 ≤ c.top_sim.profit)
    × (c.top_sim.success ≡ true)
    × ((balance ≡ 0) ⊎ (adjusted_cost c ≤ balance / 10))

-- What the order of a candidate needs.
abbrev IsFit : Attempt Candidate → Candidate → ℕ → ℕ → Type 0
IsFit selected c pct balance =
    (pct ≤ max_bribe_pct)
    × (selected ≡ ok c)
    × IsPriced c
    × IsWorth c
    × ((balance ≡ 0) ⊎ (adjusted_cost c ≤ balance / 10))

signed-IsCovered :
    (sign : TransactionRequest → Option (List ℕ × ℕ)) (selected : Attempt Candidate)
    (request : TransactionRequest) (c : Candidate) (pct balance : ℕ) (s t : FlashLoanExecutor)
    (signature : Option (List ℕ × ℕ))
    → sign request ≡ signature
    → request.input ≡ c.calldata
    → IsFit selected c pct balance
    → SameLocks s t
    → Keeps s (IsCovered sign selected balance) (signed request c pct t signature)
signed-IsCovered sign selected request c pct balance s t none answer sent fit same = (same, tt)
signed-IsCovered sign selected request c pct balance s t (some (rlp, hash)) answer sent fit same =
    let small = bribe_small c.net_profit pct fit.0 in
    let priced = fit.2 in
    let worth = fit.3.0 in (same, (c, fit.1, sent, answer, omega arith, fit.3.1, fit.4))

module _ {W : Type 0} (out : Outside W) (selected : Attempt Candidate) where
  build_with-IsCovered :
      (c : Candidate) (pct balance : ℕ) (s : FlashLoanExecutor) (fee : Run ℕ)
      → IsFit selected c pct balance
      → Keeps s (IsCovered out.sign selected balance) (build_with out c pct s fee)
  unfolding build_with
  build_with-IsCovered c pct balance s panic fit = ((refl, refl, refl), tt)
  build_with-IsCovered c pct balance s (done suggested) fit =
      let request = request_for out c s suggested in
      elim (Bool-cases (leb (2 ^ 128) request.max_fee_per_gas || leb (2 ^ 128) suggested)) [
        | inl big ↦ rw big ((refl, refl, refl), tt)
        | inr fits ↦ rw fits (
            signed-IsCovered out.sign selected request c pct balance s
              (record s { next_nonce = (s.next_nonce + 1) % 2 ^ 64 }) (out.sign request) refl refl
              fit (refl, refl, refl))
      ]

  build_order-IsCovered :
      (opp : Opportunity) (c : Candidate) (pct balance : ℕ) (s : FlashLoanExecutor)
      → IsFit selected c pct balance
      → Keeps s (IsCovered out.sign selected balance) (build_order out opp c pct s)
  unfolding build_order
  build_order-IsCovered opp c pct balance s fit =
      build_with-IsCovered c pct balance s
        (suggest_priority_fee (engine_of s) opp (current_fees s.mirror.gas_state).1) fit

  -- A candidate whose net profit is its profit less the fees: pricing it leaves the locks, and the
  -- order that it makes, if any, is covered.
  pub price-IsCovered :
      (opp : Opportunity) (c : Candidate) (s : FlashLoanExecutor)
      → selected ≡ ok c
      → IsPriced c
      → Keeps s (IsCovered out.sign selected s.circuit_breaker.current_balance) (price out opp c s)
  unfolding price over_budget
  price-IsCovered opp c s is_chosen priced = elim (Bool-cases (over_budget s c)) [
    | inl over ↦ rw over ((refl, refl, refl), tt)
    | inr within ↦
        let balance = s.circuit_breaker.current_balance in
        let budget : (balance ≡ 0) ⊎ (adjusted_cost c ≤ balance / 10) = ground arith in
        rw within (
          Keeps-bind s (offer out.rises out.first_offer opp s) _ _ _
            (offer-at_most out.rises out.first_offer opp s)
            (λ first s1 _.
              Keeps-bind s1 (check_costs c first s1) _ _ _ (check_costs-IsWorth c first s1)
                (λ _ s2 worth.
                  Keeps-bind s2 (offer out.rises out.second_offer opp s2) _ _ _
                    (offer-at_most out.rises out.second_offer opp s2)
                    (λ second s3 small.
                      build_order-IsCovered opp c (bump opp second) balance s3
                        (bump-at_most opp second small, is_chosen, priced, worth, budget)))))
  ]
