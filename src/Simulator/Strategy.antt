-- ===== src/Simulator/Strategy.antt =====
-- src/state_simulator.rs: the run of an opportunity in a branch, and the three branches.
use sovereign_shadow_mev.Prelude.{
  ℕ, ◌+◌, ◌-◌, ◌^◌, Bool, true, false, ◌||◌, Option, none, some, List, [], ◌∷◌, ◌++◌, length, ◌==◌,
  if◌then◌else◌,
}
use sovereign_shadow_mev.Constants.{simulation_gas_limit}
use sovereign_shadow_mev.Models.{MempoolTx, Opportunity}
use sovereign_shadow_mev.Models.Errors.{Attempt, crash, err, ok, simulation_failed, evm_error}
use sovereign_shadow_mev.Mirror.Pools.{StateMirror}
use sovereign_shadow_mev.Simulator.Evm.{TxEnv, ExecutionResult, success, Evm, commit_or_skip}
use sovereign_shadow_mev.Simulator.Noise.{
  SimulationBranch, top, mid, tail, inject_noise_transactions,
}

-- The access list holds an account and its slots.
pub record SimResult : Type 0 where
  pub profit : ℕ
  pub gas_used : ℕ
  pub branch : SimulationBranch
  pub success : Bool
  pub access_list : List (ℕ × List ℕ)

-- The accounts of the result, less the zero address and the caller.
unfoldable pub access_items : ℕ → List (ℕ × List ℕ) → List (ℕ × List ℕ)
access_items caller [] = []
access_items caller ((address, slots) ∷ accounts) =
    let rest = access_items caller accounts in
    if (address == 0) || (address == caller) then rest else (address, slots) ∷ rest

abbrev pub succeeded : ExecutionResult → Bool
succeeded (success gas output) = true
succeeded _ = false

abbrev pub gas_of : ExecutionResult → ℕ
gas_of (success gas output) = gas
gas_of _ = 0

abbrev pub or_zero : Option ℕ → ℕ
or_zero none = 0
or_zero (some a) = a

-- `if let Ok(res) = ... { results.push(res) }`
abbrev pub push_ok : List SimResult → Attempt SimResult → List SimResult
push_ok results (ok res) = results ++ res ∷ []
push_ok results _ = results

unfoldable pub run_branches :
    (SimulationBranch → Attempt SimResult) → List SimulationBranch → List SimResult → List SimResult
run_branches simulate [] results = results
run_branches simulate (branch ∷ branches) results =
    run_branches simulate branches (push_ok results (simulate branch))

module _ {W : Type 0} (evm : Evm W) (random : ℕ → ℕ) where
  -- The swaps of the pending transactions, each from a random caller; errors are ignored.
  unfoldable pub inject_triggers : List MempoolTx → ℕ → W → W
  inject_triggers [] seed world = world
  inject_triggers (tx ∷ txs) seed world =
      let env : TxEnv = record {
        caller = random seed;
        transact_to = or_zero tx.to;
        calldata = tx.payload;
        gas_limit = none;
      } in
      inject_triggers txs (seed + 1) (commit_or_skip evm env world)

  -- The caller gets 1 ether, and a contract that is not there becomes an empty account.
  unfoldable pub prepare : StateMirror → ℕ → ℕ → W
  prepare m target_contract caller_eoa =
      let funded = evm.insert_account caller_eoa (10 ^ 18) (evm.open_cache m) in
      if evm.has_account target_contract funded
      then funded
      else evm.insert_account target_contract 0 funded

  -- The world before the trade of the opportunity.
  unfoldable pub before_trade : StateMirror → Opportunity → ℕ → SimulationBranch → ℕ → W
  before_trade m opp target_contract branch caller_eoa =
      inject_noise_transactions evm random opp.path.hops branch (length opp.pending_txs)
        (inject_triggers opp.pending_txs 0 (prepare m target_contract caller_eoa))

  -- The profit is what the contract's balance gains.
  unfoldable pub simulate_strategy :
      StateMirror → Opportunity → List ℕ → ℕ → SimulationBranch → ℕ → Attempt SimResult
  simulate_strategy m opp arb_data target_contract branch caller_eoa =
      let world = before_trade m opp target_contract branch caller_eoa in
      let env : TxEnv = record {
        caller = caller_eoa;
        transact_to = target_contract;
        calldata = arb_data;
        gas_limit = some simulation_gas_limit;
      } in
      elim (evm.transact env world) [
        | none ↦ err (simulation_failed evm_error)
        | some receipt ↦ ok (record {
          profit = evm.balance target_contract receipt.world - evm.balance target_contract world;
          gas_used = gas_of receipt.outcome;
          branch = branch;
          success = succeeded receipt.outcome;
          access_list = access_items caller_eoa receipt.touched;
        })
      ]

  unfoldable pub simulate_multiverse :
      StateMirror → Opportunity → List ℕ → ℕ → ℕ → Attempt (ℕ × ℕ × Bool)
  simulate_multiverse m opp arb_data target_contract caller_eoa =
      elim (simulate_strategy m opp arb_data target_contract top caller_eoa) [
        | ok res ↦ ok (res.profit, res.gas_used, res.success)
        | err e ↦ err e
        | crash ↦ crash
      ]

-- Every run draws its own random addresses.
module _ {W : Type 0} (evm : Evm W) (random : SimulationBranch → ℕ → ℕ) where
  unfoldable pub run_branch_simulation : StateMirror → Opportunity → List ℕ → ℕ → ℕ → List SimResult
  run_branch_simulation m opp target_tx_data target_contract caller_eoa =
      run_branches
        (λ branch.
          simulate_strategy evm (random branch) m opp target_tx_data target_contract branch
            caller_eoa)
        (top ∷ mid ∷ tail ∷ []) []
