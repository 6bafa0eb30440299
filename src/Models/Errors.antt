-- ===== src/Models/Errors.antt =====
-- src/models.rs: `MEVError`. A message that the sources format is a constructor here, with the numbers in
-- it. An `Attempt` is code that gives a result, fails with such an error, or panics.
use sovereign_shadow_mev.Prelude.{ℕ, Bool, true, false, Run, done, panic}

-- The messages of `SimulationFailed`.
pub data Fault : Type 0 where
  evm_error : Fault
  no_candidate : Fault
  budget_cap : Fault
  protection : ℕ → ℕ → Fault
  local_revert : Fault
  scavenger_veto : ℕ → Fault
  insufficient_profit : Fault

-- The messages of `HoneypotDetected`.
pub data Trap : Type 0 where
  wash_trap : ℕ → Trap
  static_analysis : Trap
  xray_selfdestruct xray_delegatecall xray_jail xray_origin : Trap
  blacklisted : Trap
  buy_failed : Trap
  liquidity_depth : Trap
  ghost_token : Trap
  approve_failed : Trap
  sell_failed : Trap
  liquidation_failed : Trap
  gas_trap : ℕ → Trap
  high_tax : ℕ → ℕ → Trap
  zero_profit : Trap

-- The messages of `Other`.
pub data Notice : Type 0 where
  builder_missing : Notice
  self_collision : Notice
  block_lag : Notice
  signing_failed : Notice

pub data MevError : Type 0 where
  simulation_failed : Fault → MevError
  honeypot_detected : Trap → MevError
  circuit_breaker_open : MevError
  no_relay_accepted : MevError
  provider_error : MevError
  serialization_error : MevError
  http : MevError
  other : Notice → MevError

unfoldable pub is_revert : MevError → Bool
is_revert (simulation_failed f) = true
is_revert _ = false

pub data Attempt {ℓ} (T : Type ℓ) : Type ℓ where
  crash : Attempt T
  err : MevError → Attempt T
  ok : T → Attempt T

-- `Result<(), MEVError>`
abbrev pub Check : Type 0
Check = Attempt (Unit {0})

-- `?`
infixl 5 ◌>>?◌
abbrev pub ◌>>?◌ {ℓ κ} : {S : Type ℓ} {T : Type κ} → Attempt S → (S → Attempt T) → Attempt T
ok a >>? f = f a
err e >>? f = err e
crash >>? f = crash

-- Code that may panic, within code that may fail.
abbrev pub attempt {ℓ} : {T : Type ℓ} → Run T → Attempt T
attempt (done a) = ok a
attempt panic = crash

-- The result, if there is one, satisfies `P`.
abbrev pub OkOnly {ℓ} : {T : Type ℓ} → Attempt T → (T → Type 0) → Type 0
OkOnly (ok a) P = P a
OkOnly (err e) P = Unit
OkOnly crash P = Unit

pub OkOnly-bind {ℓ κ} :
    {S : Type ℓ} {T : Type κ} (m : Attempt S) (f : S → Attempt T) (P : S → Type 0) (Q : T → Type 0)
    → OkOnly m P
    → ((a : S) → P a → OkOnly (f a) Q)
    → OkOnly (m >>? f) Q
OkOnly-bind (ok a) f P Q h k = k a h
OkOnly-bind (err e) f P Q h k = tt
OkOnly-bind crash f P Q h k = tt
