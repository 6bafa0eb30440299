-- ===== src/Mirror.antt =====
-- src/state_mirror.rs: the pools, byte codes and gas market that the engine keeps in memory.
pub mod Pools
pub mod Blocks
pub mod Traders
pub mod Codes
pub mod Updates
pub mod Prune
pub mod Sync
