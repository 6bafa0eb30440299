-- ===== src/V3Math.antt =====
-- src/v3_math.rs: concentrated liquidity arithmetic, one child module for each part of the file.
pub mod Arith
pub mod Ratio
pub mod TickSearch
pub mod Delta
pub mod SwapStep
pub mod Bitmap
pub mod Swap
