-- ===== src/Simulator/Evm.antt =====
-- The virtual machine that src/state_simulator.rs runs, a parameter: a world is its database with what
-- was committed to it.
use sovereign_shadow_mev.Prelude.{ℕ, Bool, true, false, Option, none, some, List}
use sovereign_shadow_mev.Models.Errors.{Attempt, err, ok, simulation_failed, evm_error}
use sovereign_shadow_mev.Mirror.Pools.{StateMirror}

-- The fields of a `TxEnv` that the sources set; `gas_limit` is `none` where they leave the default.
pub record TxEnv : Type 0 where
  pub caller : ℕ
  pub transact_to : ℕ
  pub calldata : List ℕ
  pub gas_limit : Option ℕ

pub data ExecutionResult : Type 0 where
  success : ℕ → List ℕ → ExecutionResult
  revert : ExecutionResult
  halt : ExecutionResult

abbrev pub is_success : ExecutionResult → Bool
is_success (success gas_used output) = true
is_success _ = false

-- `touched` holds the accounts of the result with the slots of each; `world` is the world once the result is
-- committed.
pub record Receipt (W : Type 0) : Type 0 where
  pub outcome : ExecutionResult
  pub touched : List (ℕ × List ℕ)
  pub world : W

-- `open_cache` is `CacheDB::new` over the mirror; `transact` gives `none` on an error.
pub record Evm (W : Type 0) : Type 0 where
  pub open_cache : StateMirror → W
  pub insert_account : ℕ → ℕ → W → W
  pub has_account : ℕ → W → Bool
  pub balance : ℕ → W → ℕ
  pub transact : TxEnv → W → Option (Receipt W)

module _ {W : Type 0} where
  abbrev pub committed : Option (Receipt W) → Attempt (ExecutionResult × W)
  committed none = err (simulation_failed evm_error)
  committed (some receipt) = ok (receipt.outcome, receipt.world)

module _ {W : Type 0} (evm : Evm W) where
  -- `transact_commit`, whose error is passed on.
  unfoldable pub transact_commit : TxEnv → W → Attempt (ExecutionResult × W)
  transact_commit tx world = committed (evm.transact tx world)

  -- `let _ = evm.transact_commit()`
  unfoldable pub commit_or_skip : TxEnv → W → W
  commit_or_skip tx world = elim (evm.transact tx world) [
    | none ↦ world
    | some receipt ↦ receipt.world
  ]
