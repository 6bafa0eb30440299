-- ===== src/Executor/Pipeline/Laws.antt =====
-- What the executor sends for an opportunity.
use sovereign_shadow_mev.Prelude.{
  ℕ, ◌+◌, ◌%◌, ◌^◌, ◌≤◌, ◌<◌, ◌≡◌, refl, subst, arith, Bool, true, false, not, Option, none, some,
  List, [], ◌∷◌, length, if◌then◌else◌, inl, inr, ◌⊎◌,
}
use sovereign_shadow_mev.Prelude.Assoc.{insert}
use sovereign_shadow_mev.Models.{Hop, Opportunity}
use sovereign_shadow_mev.Models.Errors.{Attempt, crash, err, ok, OkOnly, other, block_lag}
use sovereign_shadow_mev.Mirror.Blocks.{verify_state_freshness}
use sovereign_shadow_mev.Breaker.Switch.{is_open}
use sovereign_shadow_mev.Executor.State.{
  TransactionRequest, FlashLoanExecutor, Outside, collides, lock_pools,
}
use sovereign_shadow_mev.Executor.Candidates.{Candidate, select_candidate}
use sovereign_shadow_mev.Executor.Candidates.Laws.{IsSelected, select_candidate-IsSelected}
use sovereign_shadow_mev.Executor.Pricing.{Stage, Order, price}
use sovereign_shadow_mev.Executor.Pricing.Laws.{
  Keeps, Keeps-then, SameLocks-trans, IsCovered, price-IsCovered,
}
use sovereign_shadow_mev.Executor.Broadcast.{Sent, broadcast_loop, max_resilience_attempts}
use sovereign_shadow_mev.Executor.Broadcast.Laws.{
  AreFor, SameLocks, HasEnded, broadcast_loop-HasEnded,
}
use sovereign_shadow_mev.Executor.Pipeline.{
  check_traps, addresses_to_fetch, fetch_all, validate, vet_tokens, vetted_order, send_stage,
  simulate_and_execute,
}

-- The fields that neither the fetches nor the vetting change.
abbrev SameRules : FlashLoanExecutor → FlashLoanExecutor → Type 0
SameRules s t =
    SameLocks s t × (t.circuit_breaker.current_balance ≡ s.circuit_breaker.current_balance)

vet_tokens-SameRules : (hops : List Hop) (s : FlashLoanExecutor) → SameRules s (vet_tokens hops s)
unfolding vet_tokens
vet_tokens-SameRules [] s = ((refl, refl, refl), refl)
vet_tokens-SameRules (hop ∷ hops) s =
    vet_tokens-SameRules hops
      (record s { vetted_tokens = insert hop.token_out true s.vetted_tokens })

anything {ℓ} : {T : Type ℓ} (m : Attempt T) → OkOnly m (λ _. Unit)
anything (ok a) = tt
anything (err e) = tt
anything crash = tt

-- A result that satisfies `P` is the result.
OkOnly_self :
    {T : Type 0} (m : Attempt T) (P : T → Type 0) → OkOnly m P → OkOnly m (λ a. (m ≡ ok a) × P a)
OkOnly_self (ok a) P h = (refl, h)
OkOnly_self (err e) P h = tt
OkOnly_self crash P h = tt

module _ {W : Type 0} (out : Outside W) where
  -- The executor once the byte codes are fetched and the tokens are vetted.
  abbrev pub vetted_state : FlashLoanExecutor → List Hop → FlashLoanExecutor
  vetted_state s hops =
      vet_tokens hops
        (record s { mirror = fetch_all out.fetched (addresses_to_fetch s.mirror hops) s.mirror })

  -- The candidate that is selected in that state.
  abbrev pub selected_from : FlashLoanExecutor → Opportunity → Attempt Candidate
  selected_from s opp = select_candidate (vetted_state s opp.path.hops) opp out

  pub vetted_order-IsCovered :
      (s : FlashLoanExecutor) (opp : Opportunity)
      → Keeps s
          (IsCovered out.sign (selected_from s opp) s.circuit_breaker.current_balance)
          (vetted_order out s opp)
  unfolding vetted_order
  vetted_order-IsCovered s opp =
      let hops = opp.path.hops in
      let s1 : FlashLoanExecutor = record s {
        mirror = fetch_all out.fetched (addresses_to_fetch s.mirror hops) s.mirror;
      } in
      let s2 = vet_tokens hops s1 in
      let vetted = vet_tokens-SameRules hops s1 in
      let selected = select_candidate s2 opp out in
      Keeps-then s s _ _ (λ _. Unit) _ (refl, refl, refl)
        (anything (
          if verify_state_freshness s.mirror out.now
          then check_traps s.mirror hops
          else err (other block_lag)))
        (λ _ _.
          Keeps-then s s1 (validate out s1 opp.input_amount hops) _ (λ _. Unit) _ (refl, refl, refl)
            (anything (validate out s1 opp.input_amount hops))
            (λ _ _.
              Keeps-then s1 s2 selected _ (λ c. (selected ≡ ok c) × IsSelected s2.min_profit_wei c)
                _ vetted.0 (OkOnly_self selected _ (select_candidate-IsSelected s2 opp out))
                (λ c good.
                  subst
                    (λ balance. Keeps s2 (IsCovered out.sign selected balance) (price out opp c s2))
                    vetted.1 (price-IsCovered out selected opp c s2 good.0 good.1.0))))

-- The executor with the pools of an opportunity locked for the next block.
abbrev pub locked_state : FlashLoanExecutor → Opportunity → FlashLoanExecutor
locked_state s opp = record s {
  occupied_pools =
      lock_pools s.occupied_pools ((s.current_block + 1) % 2 ^ 64) opp.id opp.path.hops;
}

-- No bundle and no hash; or one or two bundles for a covered order, for one block after another.
abbrev pub IsSafe :
    (TransactionRequest → Option (List ℕ × ℕ)) → Attempt Candidate → ℕ → ℕ → Option Sent → Type 0
IsSafe sign selected balance block none = ⊥
IsSafe sign selected balance block (some (result, bundles, t)) =
    ((bundles ≡ []) × OkOnly result (λ _. ⊥))
    ⊎ ((order : Order) × IsCovered sign selected balance order
        × AreFor order block bundles
        × (0 < length bundles)
        × (length bundles ≤ 2)
        × OkOnly result (λ hash. hash ≡ order.tx_hash))

HasEnded-IsSafe :
    (sign : TransactionRequest → Option (List ℕ × ℕ)) (selected : Attempt Candidate)
    (balance block : ℕ) (s : FlashLoanExecutor) (order : Order) (sent : Option Sent)
    → IsCovered sign selected balance order
    → HasEnded order block max_resilience_attempts s sent
    → IsSafe sign selected balance block sent
HasEnded-IsSafe sign selected balance block s order none covered h = h
HasEnded-IsSafe sign selected balance block s order (some (ok hash, bundles, t)) covered h =
    inr (order, covered, h.3, h.1, h.2, elim h.0 [ inl e ↦ ground arith | inr e ↦ ground arith ])
HasEnded-IsSafe sign selected balance block s order (some (err e, bundles, t)) covered h =
    inr (order, covered, h.3, h.1, h.2, tt)
HasEnded-IsSafe sign selected balance block s order (some (crash, bundles, t)) covered h =
    inr (order, covered, h.3, h.1, h.2, tt)

-- The three early returns, each of which and the rest satisfy `P`.
each_return :
    (P : Option Sent → Type 0) (built tripped taken : Bool) (a b c d : Option Sent)
    → P a
    → P b
    → P c
    → P d
    → P (if not built then a else if tripped then b else if taken then c else d)
each_return P false tripped taken a b c d pa pb pc pd = pa
each_return P true true taken a b c d pa pb pc pd = pb
each_return P true false true a b c d pa pb pc pd = pc
each_return P true false false a b c d pa pb pc pd = pd

pub no_return :
    (P : Option Sent → Type 0) (built tripped taken : Bool) (a b c d : Option Sent)
    → built ≡ true
    → tripped ≡ false
    → taken ≡ false
    → P d
    → P (if not built then a else if tripped then b else if taken then c else d)
no_return P false tripped taken a b c d e1 e2 e3 pd = ground arith
no_return P true true taken a b c d e1 e2 e3 pd = ground arith
no_return P true false true a b c d e1 e2 e3 pd = ground arith
no_return P true false false a b c d e1 e2 e3 pd = pd

-- The locks of `s` are those that the stage leaves.
abbrev pub LeavesLocks : FlashLoanExecutor → Option Sent → Type 0
LeavesLocks s none = ⊥
LeavesLocks s (some (result, bundles, t)) = SameLocks s t

HasEnded-LeavesLocks :
    (order : Order) (block most : ℕ) (s t : FlashLoanExecutor) (sent : Option Sent)
    → SameLocks s t
    → HasEnded order block most t sent
    → LeavesLocks s sent
HasEnded-LeavesLocks order block most s t none same h = h
HasEnded-LeavesLocks order block most s t (some (result, bundles, u)) same h =
    SameLocks-trans s t u same h.4

module _ {W : Type 0} (out : Outside W) where
  pub send_stage-IsSafe :
      (selected : Attempt Candidate) (opp : Opportunity) (block balance : ℕ) (s : FlashLoanExecutor)
      (stage : Stage Order)
      → Keeps s (IsCovered out.sign selected balance) stage
      → IsSafe out.sign selected balance block (send_stage out opp block stage)
        × LeavesLocks s (send_stage out opp block stage)
  unfolding send_stage
  send_stage-IsSafe selected opp block balance s (ok order, t) h =
      let sent =
        broadcast_loop out.broadcast opp order out.now (out.second_offer.1) max_resilience_attempts
          0 block t in
      let ended =
        broadcast_loop-HasEnded out.broadcast opp order out.now (out.second_offer.1) 1 0 block t
          (omega arith) in
      (
        HasEnded-IsSafe out.sign selected balance block t order sent h.1 ended,
        HasEnded-LeavesLocks order block max_resilience_attempts s t sent h.0 ended,
      )
  send_stage-IsSafe selected opp block balance s (err e, t) h = (inl (refl, tt), h.0)
  send_stage-IsSafe selected opp block balance s (crash, t) h = (inl (refl, tt), h.0)

  -- Whatever the state, the machine, the answers of the network and the relays, a call ends, and it
  -- either sends no bundle and gives no hash, or sends one or two bundles, for the next block and
  -- then the one after it, that carry the signed bytes of one order; these bytes and the order's
  -- hash are what the signer gives for the order's request, and the request has the call data of
  -- the candidate that was selected in the locked and vetted state, whose run succeeded with a
  -- profit of at least the bribe, both fees and one percent of 0.0002 ether together, and whose
  -- adjusted fees are at most a tenth of the balance, unless that is 0; a hash that is given is the
  -- order's.
  pub simulate_and_execute-IsSafe :
      (s : FlashLoanExecutor) (opp : Opportunity)
      → IsSafe out.sign
          (selected_from out (locked_state s opp) opp)
          s.circuit_breaker.current_balance
          ((s.current_block + 1) % 2 ^ 64)
          (simulate_and_execute out s opp)
  unfolding simulate_and_execute
  simulate_and_execute-IsSafe s opp =
      let target_block = (s.current_block + 1) % 2 ^ 64 in
      let hops = opp.path.hops in
      let locked = locked_state s opp in
      let selected = selected_from out locked opp in
      each_return (IsSafe out.sign selected s.circuit_breaker.current_balance target_block)
        s.has_builder (is_open s.circuit_breaker out.now)
        (collides s.occupied_pools target_block hops) _ _ _ _ (inl (refl, tt)) (inl (refl, tt))
        (inl (refl, tt))
        ((send_stage-IsSafe selected opp target_block s.circuit_breaker.current_balance locked
          (vetted_order out locked opp) (vetted_order-IsCovered out locked opp)).0)
