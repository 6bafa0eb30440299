-- ===== src/Tests.antt =====
-- Runs at concrete inputs: every law whose statement has conditions, applied where they hold.
mod Prices
mod Pools
mod Engine
mod Calls
mod Execution
mod Sending
mod Feeding
