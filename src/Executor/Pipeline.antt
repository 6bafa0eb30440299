-- ===== src/Executor/Pipeline.antt =====
-- src/flash_loan_executor.rs: `simulate_and_execute`.
pub mod Laws
pub mod Locks
use sovereign_shadow_mev.Prelude.{
  ℕ, ◌+◌, ◌%◌, ◌^◌, Bool, true, false, not, ◌||◌, ◌&&◌, Option, none, some, List, [], ◌∷◌, ◌++◌,
  contains, ltb, ◌==◌, if◌then◌else◌,
}
use sovereign_shadow_mev.Prelude.Assoc.{insert, contains_key}
use sovereign_shadow_mev.Constants.{core_tokens}
use sovereign_shadow_mev.Models.{Hop, Opportunity, Bundle}
use sovereign_shadow_mev.Models.Errors.{
  Attempt, Check, crash, err, ok, ◌>>?◌, MevError, other, circuit_breaker_open, builder_missing,
  self_collision, block_lag,
}
use sovereign_shadow_mev.Mirror.Pools.{StateMirror}
use sovereign_shadow_mev.Mirror.Blocks.{verify_state_freshness}
use sovereign_shadow_mev.Mirror.Codes.{fetch_and_cache_bytecode}
use sovereign_shadow_mev.Breaker.Switch.{is_open}
use sovereign_shadow_mev.Simulator.XRay.{detect_wash_trap}
use sovereign_shadow_mev.Simulator.Honeypot.{check_honeypot}
use sovereign_shadow_mev.Executor.State.{FlashLoanExecutor, Outside, collides, lock_pools}
use sovereign_shadow_mev.Executor.Candidates.{Candidate, select_candidate}
use sovereign_shadow_mev.Executor.Pricing.{Stage, ◌>>!◌, Order, price}
use sovereign_shadow_mev.Executor.Broadcast.{Sent, broadcast_loop, max_resilience_attempts}

-- The wash-trade check of every hop, in order.
unfoldable pub check_traps : StateMirror → List Hop → Check
check_traps m [] = ok tt
check_traps m (hop ∷ hops) = detect_wash_trap m hop.pool_address >>? λ _. check_traps m hops

-- The addresses to fetch: those with no byte code when the tasks are made.
unfoldable pub addresses_to_fetch : StateMirror → List Hop → List ℕ
addresses_to_fetch m [] = []
addresses_to_fetch m (hop ∷ hops) =
    let rest = addresses_to_fetch m hops in
    let from_pool =
      if contains_key hop.pool_address m.bytecodes then rest else hop.pool_address ∷ rest in
    if contains_key hop.token_out m.bytecodes then from_pool else hop.token_out ∷ from_pool

unfoldable pub fetch_all : (ℕ → Option (List ℕ)) → List ℕ → StateMirror → StateMirror
fetch_all fetched [] m = m
fetch_all fetched (address ∷ addresses) m =
    fetch_all fetched addresses (fetch_and_cache_bytecode m address (fetched address))

-- An error of the check of a token is passed on, and a panic in its task stops the program, which is built with
-- `panic = "abort"`.
abbrev pub join_error : Attempt ℕ → Check
join_error (err e) = err e
join_error crash = crash
join_error (ok tax) = ok tt

module _ {W : Type 0} (out : Outside W) where
  -- The tokens that are neither core tokens nor known from before are checked.
  unfoldable pub validate : FlashLoanExecutor → ℕ → List Hop → Check
  validate s amount [] = ok tt
  validate s amount (hop ∷ hops) =
      let addresses = out.check_addresses hop.token_out in
      if contains_key hop.token_out s.vetted_tokens || contains core_tokens hop.token_out
      then validate s amount hops
      else (join_error (
            check_honeypot out.evm s.mirror hop.token_out hop.pool_address amount addresses.0
              addresses.1)
          >>? λ _. validate s amount hops)

-- `vetted_tokens.insert(hop.token_out, true)` for every hop.
unfoldable pub vet_tokens : List Hop → FlashLoanExecutor → FlashLoanExecutor
vet_tokens [] s = s
vet_tokens (hop ∷ hops) s =
    vet_tokens hops (record s { vetted_tokens = insert hop.token_out true s.vetted_tokens })

-- The stage that ends without a bundle.
abbrev pub unsent : MevError → FlashLoanExecutor → Option Sent
unsent e s = some (err e, [], s)

module _ {W : Type 0} (out : Outside W) where
  -- The order, from the locked state on.
  unfoldable pub vetted_order : FlashLoanExecutor → Opportunity → Stage Order
  vetted_order s opp =
      let hops = opp.path.hops in
      let fetched = fetch_all out.fetched (addresses_to_fetch s.mirror hops) s.mirror in
      let checked = check_traps s.mirror hops in
      (if verify_state_freshness s.mirror out.now then checked else err (other block_lag), s)
      >>! λ _ s1.
          (
            validate out (record s1 { mirror = fetched }) opp.input_amount hops,
            record s1 { mirror = fetched },
          )
          >>! λ _ s2.
              (select_candidate (vet_tokens hops s2) opp out, vet_tokens hops s2) >>! λ c s3.
              price out opp c s3

  -- The end of a stage: an order goes to the relays.
  unfoldable pub send_stage : Opportunity → ℕ → Stage Order → Option Sent
  send_stage opp target_block (crash, s) = some (crash, [], s)
  send_stage opp target_block (err e, s) = unsent e s
  send_stage opp target_block (ok order, s) =
      broadcast_loop out.broadcast opp order out.now (out.second_offer.1) max_resilience_attempts 0
        target_block s

  -- `none` is a loop that has not ended with the fuel of the attempts.
  unfoldable pub simulate_and_execute : FlashLoanExecutor → Opportunity → Option Sent
  simulate_and_execute s opp =
      let target_block = (s.current_block + 1) % 2 ^ 64 in
      let hops = opp.path.hops in
      let locked = record s {
        occupied_pools = lock_pools s.occupied_pools target_block opp.id hops;
      } in
      if not s.has_builder
      then unsent (other builder_missing) s
      else if is_open s.circuit_breaker out.now
      then unsent circuit_breaker_open s
      else if collides s.occupied_pools target_block hops
      then unsent (other self_collision) s
      else send_stage opp target_block (vetted_order locked opp)
