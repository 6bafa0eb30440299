-- ===== src/Detector.antt =====
-- src/arbitrage_detector.rs: the graph of the pools, how it is built and searched, and what is found in it.
pub mod Graph
pub mod Cycles
pub mod Select
pub mod Rebuild
pub mod Search
pub mod Evaluate
