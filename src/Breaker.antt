-- ===== src/Breaker.antt =====
-- src/utils.rs: the circuit breaker, and the estimate of the data fee.
pub mod Switch
pub mod DataFee
