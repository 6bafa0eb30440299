-- ===== src/MathEngine.antt =====
-- src/math_engine.rs: the pricing of paths, one child module for each formula or search.
pub mod V2
pub mod Sqrt
pub mod Optimal
pub mod Virtual
pub mod Stable
pub mod PathOutput
pub mod Impact
pub mod Golden
