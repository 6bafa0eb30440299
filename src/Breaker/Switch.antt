-- ===== src/Breaker/Switch.antt =====
-- src/utils.rs: `CircuitBreaker`. The process-wide `GLOBAL_PAUSE` is a field of the state here, and the
-- time `now`, in seconds, is an argument.
pub mod Laws
use sovereign_shadow_mev.Prelude.{
  ℕ, suc, ◌+◌, ◌-◌, ◌*◌, ◌%◌, ◌^◌, ◌≤◌, ◌<◌, ◌≡◌, refl, arith, Bool, true, false, not, ◌&&◌, ◌||◌,
  ltb, leb, ◌==◌, if◌then◌else◌, List, [], ◌∷◌,
}
use sovereign_shadow_mev.Constants.{
  max_builder_latency_ms, max_node_lag_seconds, min_searcher_balance_wei,
}

pub data FailureType : Type 0 where
  out_of_gas slippage revert other : FailureType

-- The four counters stand in the order of `FailureType`.
pub record FailureCounts : Type 0 where
  pub out_of_gas : ℕ
  pub slippage : ℕ
  pub revert : ℕ
  pub other : ℕ

pub record CircuitBreaker : Type 0 where
  pub failure_counts : FailureCounts
  pub last_failure_time : ℕ
  pub base_cooldown_secs : ℕ
  pub max_failures : ℕ
  pub last_latency_ms : ℕ
  pub current_balance : ℕ
  pub manual_kill_switch : Bool
  pub atomic_shield_active : Bool
  pub sequencer_stalled : Bool
  pub global_pause : Bool

abbrev pub no_failures : FailureCounts
no_failures = record { out_of_gas = 0; slippage = 0; revert = 0; other = 0 }

-- `CircuitBreaker::new`
abbrev pub new_breaker : ℕ → ℕ → CircuitBreaker
new_breaker max_failures base_cooldown_secs = record {
  failure_counts = no_failures;
  last_failure_time = 0;
  base_cooldown_secs = base_cooldown_secs;
  max_failures = max_failures;
  last_latency_ms = 0;
  current_balance = 0;
  manual_kill_switch = false;
  atomic_shield_active = true;
  sequencer_stalled = false;
  global_pause = false;
}

-- The sum of the counters, on `u64`.
unfoldable pub total_failures : FailureCounts → ℕ
total_failures c = (c.out_of_gas + c.slippage + c.revert + c.other) % 2 ^ 64

unfoldable pub is_open : CircuitBreaker → ℕ → Bool
is_open b now =
    let cooldown = b.base_cooldown_secs * ((1 + b.failure_counts.out_of_gas) % 2 ^ 64) % 2 ^ 64 in
    if b.manual_kill_switch
    then true
    else if b.sequencer_stalled
    then true
    else if ltb max_builder_latency_ms b.last_latency_ms && not (b.last_latency_ms == 0)
    then true
    else if ltb b.current_balance min_searcher_balance_wei && not (b.current_balance == 0)
    then true
    else if ltb (total_failures b.failure_counts) b.max_failures
    then false
    else ltb (now - b.last_failure_time) cooldown

unfoldable pub record_sequencer_drift : CircuitBreaker → ℕ → ℕ → CircuitBreaker
record_sequencer_drift b block_timestamp now = record b {
  sequencer_stalled = ltb max_node_lag_seconds (now - block_timestamp);
}

unfoldable pub trigger_kill_switch : CircuitBreaker → CircuitBreaker
trigger_kill_switch b = record b { manual_kill_switch = true }

unfoldable pub reset_kill_switch : CircuitBreaker → CircuitBreaker
reset_kill_switch b = record b { manual_kill_switch = false }

-- `fetch_add(1)` on the counter of the failure.
unfoldable pub count_failure : FailureType → FailureCounts → FailureCounts
count_failure FailureType.out_of_gas c = record c { out_of_gas = (c.out_of_gas + 1) % 2 ^ 64 }
count_failure FailureType.slippage c = record c { slippage = (c.slippage + 1) % 2 ^ 64 }
count_failure FailureType.revert c = record c { revert = (c.revert + 1) % 2 ^ 64 }
count_failure FailureType.other c = record c { other = (c.other + 1) % 2 ^ 64 }

unfoldable pub record_failure : CircuitBreaker → FailureType → ℕ → CircuitBreaker
record_failure b ftype now =
    let counts = count_failure ftype b.failure_counts in
    record b {
      failure_counts = counts;
      last_failure_time = now;
      global_pause = b.global_pause || ltb 20 (total_failures counts);
    }

unfoldable pub record_latency : CircuitBreaker → ℕ → CircuitBreaker
record_latency b ms = record b { last_latency_ms = ms }

unfoldable pub update_balance : CircuitBreaker → ℕ → CircuitBreaker
update_balance b balance = record b { current_balance = balance }

unfoldable pub record_success : CircuitBreaker → CircuitBreaker
record_success b = record b { failure_counts = no_failures }

-- A run of failures, each with its time.
unfoldable pub record_failures : CircuitBreaker → List (FailureType × ℕ) → CircuitBreaker
record_failures b [] = b
record_failures b ((ftype, now) ∷ events) = record_failures (record_failure b ftype now) events
