-- ===== src/Simulator.antt =====
-- src/state_simulator.rs: the checks and the runs before an opportunity is sent.
pub mod Evm
pub mod XRay
pub mod Honeypot
pub mod Noise
pub mod Strategy
pub mod Engine
