-- ===== src/Bidding.antt =====
-- src/bidding_engine.rs: how much of a profit is offered, and the fee that is suggested.
pub mod Engine
pub mod Bribe
pub mod Fee
