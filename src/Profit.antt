-- ===== src/Profit.antt =====
-- src/nonce_manager.rs, src/gas_feed.rs and src/profit_manager.rs: nonces, the fee history and the
-- sweep of what was earned.
pub mod Feed
pub mod Sweep
