-- ===== src/Breaker/Switch/Laws.antt =====
-- When the breaker opens, when it closes, and when the failures stop the engine.
use sovereign_shadow_mev.Prelude.{
  ℕ, ◌+◌, ◌-◌, ◌*◌, ◌%◌, ◌^◌, ◌≤◌, ◌<◌, ◌≡◌, refl, ap, ◌∙◌, arith, false, ◌&&◌, ltb, leb, List, [],
  ◌∷◌, length,
}
use sovereign_shadow_mev.Prelude.Division.{mul-le}
use sovereign_shadow_mev.Breaker.Switch.{
  FailureType, FailureCounts, CircuitBreaker, new_breaker, total_failures, is_open, count_failure,
  record_failure, record_failures, record_success,
}

-- The sum of the counters without the wrap.
abbrev sum : FailureCounts → ℕ
sum c = c.out_of_gas + c.slippage + c.revert + c.other

sum-count_failure :
    (f : FailureType) (c : FailureCounts) → sum c + 1 < 2 ^ 64 → sum (count_failure f c) ≡ sum c + 1
unfolding count_failure
sum-count_failure FailureType.out_of_gas c h = omega arith
sum-count_failure FailureType.slippage c h = omega arith
sum-count_failure FailureType.revert c h = omega arith
sum-count_failure FailureType.other c h = omega arith

record_failures-from :
    (b : CircuitBreaker) (events : List (FailureType × ℕ))
    → sum b.failure_counts + length events < 2 ^ 64
    → b.global_pause ≡ ltb 20 (sum b.failure_counts)
    → (record_failures b events).global_pause ≡ ltb 20 (sum b.failure_counts + length events)
unfolding record_failures record_failure total_failures
record_failures-from b [] h e = e ∙ ground arith
record_failures-from b ((f, t) ∷ events) h e =
    let one = sum-count_failure f b.failure_counts (omega arith) in
    record_failures-from (record_failure b f t) events (omega arith) (ground arith)
    ∙ ap (λ n. ltb 20 n) (omega arith)

-- From a new breaker, a run of fewer than 2 ^ 64 failures of any kinds without a success pauses the
-- whole engine if and only if there are more than twenty of them.
pub record_failures-pause :
    (max_failures cooldown : ℕ) (events : List (FailureType × ℕ))
    → length events < 2 ^ 64
    → (record_failures (new_breaker max_failures cooldown) events).global_pause
      ≡ ltb 20 (length events)
record_failures-pause max_failures cooldown events h =
    record_failures-from (new_breaker max_failures cooldown) events (omega arith) refl
    ∙ ap (λ n. ltb 20 n) (omega arith)

-- The failures for lack of gas in a run.
abbrev pub gas_failures : List (FailureType × ℕ) → ℕ
gas_failures [] = 0
gas_failures ((FailureType.out_of_gas, t) ∷ events) = gas_failures events + 1
gas_failures ((_, t) ∷ events) = gas_failures events

gas_failures-le : (events : List (FailureType × ℕ)) → gas_failures events ≤ length events
gas_failures-le [] = omega arith
gas_failures-le ((FailureType.out_of_gas, t) ∷ events) = omega (arith, gas_failures-le events)
gas_failures-le ((FailureType.slippage, t) ∷ events) = omega (arith, gas_failures-le events)
gas_failures-le ((FailureType.revert, t) ∷ events) = omega (arith, gas_failures-le events)
gas_failures-le ((FailureType.other, t) ∷ events) = omega (arith, gas_failures-le events)

gas_failures-split :
    (f : FailureType) (t : ℕ) (events : List (FailureType × ℕ))
    → gas_failures ((f, t) ∷ events) ≡ gas_failures events + gas_failures ((f, t) ∷ [])
gas_failures-split FailureType.out_of_gas t events = omega arith
gas_failures-split FailureType.slippage t events = omega arith
gas_failures-split FailureType.revert t events = omega arith
gas_failures-split FailureType.other t events = omega arith

-- A run of failures leaves the switches, the limits and the measures of the breaker.
abbrev SameSettings : CircuitBreaker → CircuitBreaker → Type 0
SameSettings b after =
    (after.manual_kill_switch ≡ b.manual_kill_switch)
    × (after.sequencer_stalled ≡ b.sequencer_stalled)
    × (after.last_latency_ms ≡ b.last_latency_ms)
    × (after.current_balance ≡ b.current_balance)
    × (after.max_failures ≡ b.max_failures)
    × (after.base_cooldown_secs ≡ b.base_cooldown_secs)

-- What a run of failures has counted.
abbrev HasCounted : CircuitBreaker → List (FailureType × ℕ) → CircuitBreaker → Type 0
HasCounted b events after =
    SameSettings b after
    × (sum after.failure_counts ≡ sum b.failure_counts + length events)
    × (after.failure_counts.out_of_gas ≡ b.failure_counts.out_of_gas + gas_failures events)

gas-count_failure :
    (f : FailureType) (t : ℕ) (c : FailureCounts) (events : List (FailureType × ℕ))
    → sum c + 1 < 2 ^ 64
    → (count_failure f c).out_of_gas + gas_failures events
      ≡ c.out_of_gas + gas_failures ((f, t) ∷ events)
unfolding count_failure
gas-count_failure FailureType.out_of_gas t c events h = omega arith
gas-count_failure FailureType.slippage t c events h = refl
gas-count_failure FailureType.revert t c events h = refl
gas-count_failure FailureType.other t c events h = refl

record_failures-HasCounted :
    (b : CircuitBreaker) (events : List (FailureType × ℕ))
    → sum b.failure_counts + length events < 2 ^ 64
    → HasCounted b events (record_failures b events)
unfolding record_failures record_failure
record_failures-HasCounted b [] h = ((refl, refl, refl, refl, refl, refl), omega arith, omega arith)
record_failures-HasCounted b ((f, t) ∷ events) h =
    let one = sum-count_failure f b.failure_counts (omega arith) in
    let gas = gas-count_failure f t b.failure_counts events (omega arith) in
    let (same, all, lacking) =
      record_failures-HasCounted (record_failure b f t) events (omega arith) in
    (same, omega arith, lacking ∙ gas)

-- From a new breaker with a positive limit, after a run of failures of any kinds, whose number with
-- one more is below 2 ^ 64 and for which the longest cooldown does not wrap either, the breaker is
-- open at the time `now` if and only if the failures reach the limit and fewer seconds have passed
-- since the last one than one base cooldown and one more for each of the failures for lack of gas;
-- a success then closes it at once.
pub record_failures-cooldown :
    (max_failures cooldown : ℕ) (events : List (FailureType × ℕ)) (f : FailureType) (t now : ℕ)
    → 0 < max_failures
    → length events + 2 < 2 ^ 64
    → cooldown * (length events + 2) < 2 ^ 64
    → let after = record_failure (record_failures (new_breaker max_failures cooldown) events) f t in
      (is_open after now ≡ (
        leb max_failures (length events + 1)
        && ltb (now - t) (cooldown * (1 + gas_failures ((f, t) ∷ events)))))
      × (is_open (record_success after) now ≡ false)
unfolding is_open record_failure record_success total_failures
record_failures-cooldown max_failures cooldown events f t now pos_max few short =
    let b = record_failures (new_breaker max_failures cooldown) events in
    let (same, all, lacking) =
      record_failures-HasCounted (new_breaker max_failures cooldown) events (omega arith) in
    let counts = count_failure f b.failure_counts in
    let one = sum-count_failure f b.failure_counts (omega arith) in
    let gas = gas-count_failure f t b.failure_counts [] (omega arith) in
    let split = gas_failures-split f t events in
    let g = gas_failures ((f, t) ∷ events) in
    let small = gas_failures-le ((f, t) ∷ events) in
    let total : sum counts % 2 ^ 64 ≡ length events + 1 = omega arith in
    let lack : (1 + counts.out_of_gas) % 2 ^ 64 ≡ 1 + g = omega arith in
    let fits = mul-le cooldown (1 + g) cooldown (length events + 2) (omega arith) (omega arith) in
    let long : cooldown * (1 + g) % 2 ^ 64 ≡ cooldown * (1 + g) = omega arith in
    let (manual, stalled, latency, balance, limit, base) = same in
    rw (manual, stalled, latency, balance, limit, base, total, lack, long)
      (ground arith, ground arith)
