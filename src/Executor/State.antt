-- ===== src/Executor/State.antt =====
-- src/flash_loan_executor.rs: the state of the executor with the parts that it shares, and what the outside
-- answers during one call.
use sovereign_shadow_mev.Prelude.{
  ℕ, Bool, false, ◌||◌, ◌&&◌, Option, List, [], ◌∷◌, leb, ◌==◌, if◌then◌else◌,
}
use sovereign_shadow_mev.Prelude.Assoc.{Assoc}
use sovereign_shadow_mev.Models.{Hop, Bundle, Lender}
use sovereign_shadow_mev.Mirror.Pools.{StateMirror}
use sovereign_shadow_mev.Breaker.Switch.{CircuitBreaker}
use sovereign_shadow_mev.Breaker.DataFee.{EcotoneScalars}
use sovereign_shadow_mev.Bidding.Engine.{BiddingEngine}
use sovereign_shadow_mev.Simulator.Evm.{Evm}
use sovereign_shadow_mev.Simulator.Noise.{SimulationBranch}

-- A pool that is taken in a block, with the opportunity that took it.
pub record Lock : Type 0 where
  pub block : ℕ
  pub pool : ℕ
  pub owner : ℕ

-- `next_nonce` is the nonce manager's counter, `address` its account; `current_block` is the block tracker's;
-- `has_builder` says whether there is a bundle builder.
pub record FlashLoanExecutor : Type 0 where
  pub contract_address : ℕ
  pub min_profit_wei : ℕ
  pub has_builder : Bool
  pub current_block : ℕ
  pub next_nonce : ℕ
  pub address : ℕ
  pub circuit_breaker : CircuitBreaker
  pub mirror : StateMirror
  pub bidding_engine : BiddingEngine
  pub l1_calc : EcotoneScalars
  pub occupied_pools : List Lock
  pub vetted_tokens : Assoc Bool

-- What a relay answers; a rejection says whether its message tells of a stale block, and whether it tells of
-- the contract's shield.
pub data RelayResult : Type 0 where
  accepted : RelayResult
  rejected : Bool → Bool → RelayResult

pub record TransactionRequest : Type 0 where
  pub to : ℕ
  pub from : ℕ
  pub input : List ℕ
  pub nonce : ℕ
  pub access_list : List (ℕ × List ℕ)
  pub gas_limit : ℕ
  pub max_fee_per_gas : ℕ
  pub max_priority_fee_per_gas : ℕ

-- `abi_encode` wraps the payload in the call of the contract; `tenth_more` is `(gas as f64 * 1.1) as u64`;
-- `sign` gives the signed bytes and the hash, or an error; `broadcast` is given the number of the
-- attempt; `random` gives the addresses of a run and
-- `check_addresses` the two of the check of a token. `now` is in seconds, and the pairs of clock
-- readings of the two offers are in nanoseconds.
pub record Outside (W : Type 0) : Type 0 where
  pub evm : Evm W
  pub random : Lender → SimulationBranch → ℕ → ℕ
  pub check_addresses : ℕ → ℕ × ℕ
  pub now : ℕ
  pub first_offer : ℕ × ℕ
  pub second_offer : ℕ × ℕ
  pub rises : ℕ → ℕ → Bool
  pub fetched : ℕ → Option (List ℕ)
  pub abi_encode : List ℕ → List ℕ
  pub tenth_more : ℕ → ℕ
  pub signer : ℕ
  pub sign : TransactionRequest → Option (List ℕ × ℕ)
  pub broadcast : ℕ → Bundle → List RelayResult

-- `occupied_pools.get(&(block, pool))` is there.
unfoldable pub is_occupied : List Lock → ℕ → ℕ → Bool
is_occupied [] block pool = false
is_occupied (lock ∷ locks) block pool =
    ((lock.block == block) && (lock.pool == pool)) || is_occupied locks block pool

-- The check of the hops against the locks.
unfoldable pub collides : List Lock → ℕ → List Hop → Bool
collides locks block [] = false
collides locks block (hop ∷ hops) =
    is_occupied locks block hop.pool_address || collides locks block hops

-- The insertion of the locks; where the check passed no lock is replaced but one of the same opportunity.
unfoldable pub lock_pools : List Lock → ℕ → ℕ → List Hop → List Lock
lock_pools locks block id [] = locks
lock_pools locks block id (hop ∷ hops) =
    lock_pools (record { block = block; pool = hop.pool_address; owner = id } ∷ locks) block id hops

unfoldable pub prune_locks : List Lock → ℕ → List Lock
prune_locks [] current_block = []
prune_locks (lock ∷ locks) current_block =
    let rest = prune_locks locks current_block in
    if leb current_block lock.block then lock ∷ rest else rest

unfoldable pub prune_sequencer : FlashLoanExecutor → ℕ → FlashLoanExecutor
prune_sequencer s current_block = record s {
  occupied_pools = prune_locks s.occupied_pools current_block;
}
