-- ===== src/Simulator/Engine.antt =====
-- src/simulation_engine.rs: `simulate_execution`, a run whose profit is a token balance. Its machine runs in an
-- environment of its own.
use sovereign_shadow_mev.Prelude.{
  ℕ, ◌-◌, ◌≤◌, ◌≡◌, arith, false, not, ◌&&◌, Option, none, some, List, length, ltb, ◌==◌,
  if◌then◌else◌, Bool-cases, inl, inr,
}
use sovereign_shadow_mev.Constants.{token_weth, simulation_gas_limit}
use sovereign_shadow_mev.Models.Errors.{
  Attempt, crash, err, ok, ◌>>?◌, simulation_failed, honeypot_detected, local_revert,
  insufficient_profit, zero_profit,
}
use sovereign_shadow_mev.Simulator.Evm.{ExecutionResult, success, Receipt, TxEnv, committed}
use sovereign_shadow_mev.Simulator.Honeypot.{balance_data, word_of}

-- The block number, the transaction and its gas price.
pub record Env : Type 0 where
  pub block_number : ℕ
  pub tx : TxEnv
  pub gas_price : ℕ

-- The base asset of the only chain.
abbrev pub base_asset : ℕ
base_asset = token_weth

abbrev pub env_for : ℕ → List ℕ → ℕ → Env
env_for bot_address calldata target_block_number = record {
  block_number = target_block_number;
  tx = record {
    caller = bot_address;
    transact_to = bot_address;
    calldata = calldata;
    gas_limit = some simulation_gas_limit;
  };
  gas_price = 1_000_000_000;
}

-- The verdict on a successful run.
unfoldable pub judge : ℕ → ℕ → ℕ → Attempt (ℕ × ℕ)
judge profit gas_used min_profit_threshold =
    if ltb profit min_profit_threshold
    then err (simulation_failed insufficient_profit)
    else if (profit == 0) && not (min_profit_threshold == 0)
    then err (honeypot_detected zero_profit)
    else ok (profit, gas_used)

module _ {W : Type 0} (transact : Env → W → Option (Receipt W)) where
  -- The call reads a balance in the environment of the run, with only data and target replaced.
  unfoldable pub get_balance_optimized : Env → W → ℕ → ℕ → Attempt ℕ
  get_balance_optimized env world token account =
      committed (
        transact
          (record env {
            tx = record (env.tx) { calldata = balance_data account; transact_to = token };
          })
          world)
      >>? λ (outcome, after). elim outcome [ success gas output ↦ word_of output | _ ↦ ok 0 ]

  -- The balance after a run, and the verdict.
  unfoldable pub after_run : Env → ℕ → ℕ → ℕ → ExecutionResult × W → Attempt (ℕ × ℕ)
  after_run env bot_address bal_before min_profit_threshold (success gas_used output, world) =
      get_balance_optimized env world base_asset bot_address >>? λ bal_after.
      judge (bal_after - bal_before) gas_used min_profit_threshold
  after_run env bot_address bal_before min_profit_threshold _ = err (simulation_failed local_revert)

  unfoldable pub simulate_execution : W → ℕ → List ℕ → ℕ → ℕ → Attempt (ℕ × ℕ)
  simulate_execution world bot_address calldata target_block_number min_profit_threshold =
      let env = env_for bot_address calldata target_block_number in
      get_balance_optimized env world base_asset bot_address >>? λ bal_before.
      committed (transact env world) >>? after_run env bot_address bal_before min_profit_threshold

-- An `Ok` has the profit that was asked for, and no error is the one of a profit of zero.
abbrev pub IsJudged : ℕ → Attempt (ℕ × ℕ) → Type 0
IsJudged min_profit_threshold (ok (profit, gas)) = min_profit_threshold ≤ profit
IsJudged min_profit_threshold (err (honeypot_detected zero_profit)) = ⊥
IsJudged min_profit_threshold _ = Unit

judge-IsJudged : (profit gas m : ℕ) → IsJudged m (judge profit gas m)
unfolding judge
judge-IsJudged profit gas m = elim (Bool-cases (ltb profit m)) [
  | inl less ↦ rw less tt
  | inr enough ↦
      let t : ((profit == 0) && not (m == 0)) ≡ false = ground arith in
      let bound : m ≤ profit = ground arith in rw (enough, t) bound
]

-- Not the error of a profit of zero.
abbrev IsOther {ℓ} : {T : Type ℓ} → Attempt T → Type 0
IsOther (err (honeypot_detected zero_profit)) = ⊥
IsOther _ = Unit

IsJudged-bind {ℓ} :
    {S : Type ℓ} (least : ℕ) (m : Attempt S) (f : S → Attempt (ℕ × ℕ))
    → IsOther m
    → ((a : S) → IsJudged least (f a))
    → IsJudged least (m >>? f)
IsJudged-bind least (ok a) f h k = k a
IsJudged-bind least (err (honeypot_detected zero_profit)) f h k = h
IsJudged-bind least (err e) f h k = tt
IsJudged-bind least crash f h k = tt

committed-IsOther : {W : Type 0} (found : Option (Receipt W)) → IsOther (committed found)
committed-IsOther none = tt
committed-IsOther (some receipt) = tt

IsOther-bind {ℓ κ} :
    {S : Type ℓ} {T : Type κ} (m : Attempt S) (f : S → Attempt T)
    → IsOther m
    → ((a : S) → IsOther (f a))
    → IsOther (m >>? f)
IsOther-bind (ok a) f h k = k a
IsOther-bind (err (honeypot_detected zero_profit)) f h k = h
IsOther-bind (err e) f h k = tt
IsOther-bind crash f h k = tt

word_of-IsOther : (output : List ℕ) → IsOther (word_of output)
word_of-IsOther output = elim (Bool-cases (ltb 32 (length output))) [
  | inl long ↦ rw long tt
  | inr short ↦ rw short tt
]

read-IsOther :
    (outcome : ExecutionResult)
    → IsOther {T = ℕ} (elim outcome [ success gas output ↦ word_of output | _ ↦ ok 0 ])
read-IsOther (success gas output) = word_of-IsOther output
read-IsOther ExecutionResult.revert = tt
read-IsOther ExecutionResult.halt = tt

module _ {W : Type 0} (transact : Env → W → Option (Receipt W)) where
  get_balance_optimized-IsOther :
      (env : Env) (world : W) (token account : ℕ)
      → IsOther (get_balance_optimized transact env world token account)
  unfolding get_balance_optimized
  get_balance_optimized-IsOther env world token account =
      IsOther-bind (committed (transact _ world)) _
        (committed-IsOther (
          transact
            (record env {
              tx = record (env.tx) { calldata = balance_data account; transact_to = token };
            })
            world))
        (λ (outcome, after). read-IsOther outcome)

  after_run-IsJudged :
      (env : Env) (bot before least : ℕ) (r : ExecutionResult × W)
      → IsJudged least (after_run transact env bot before least r)
  unfolding after_run
  after_run-IsJudged env bot before least (success gas output, world) =
      IsJudged-bind least (get_balance_optimized transact env world base_asset bot) _
        (get_balance_optimized-IsOther env world base_asset bot)
        (λ bal_after. judge-IsJudged (bal_after - before) gas least)
  after_run-IsJudged env bot before least (ExecutionResult.revert, world) = tt
  after_run-IsJudged env bot before least (ExecutionResult.halt, world) = tt

  -- Whatever the machine does, a run that is `Ok` has at least the profit that was asked for, and the error
  -- of a profit of zero is never given: the check before it takes its cases.
  pub simulate_execution-IsJudged :
      (world : W) (bot_address : ℕ) (calldata : List ℕ) (block least : ℕ)
      → IsJudged least (simulate_execution transact world bot_address calldata block least)
  unfolding simulate_execution
  simulate_execution-IsJudged world bot_address calldata block least =
      let env = env_for bot_address calldata block in
      IsJudged-bind least (get_balance_optimized transact env world base_asset bot_address) _
        (get_balance_optimized-IsOther env world base_asset bot_address)
        (λ before.
          IsJudged-bind least (committed (transact env world)) _
            (committed-IsOther (transact env world))
            (after_run-IsJudged env bot_address before least))
