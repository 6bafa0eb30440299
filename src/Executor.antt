-- ===== src/Executor.antt =====
-- src/flash_loan_executor.rs: from an opportunity to the bundles that are sent.
pub mod State
pub mod Candidates
pub mod Pricing
pub mod Broadcast
pub mod Pipeline
