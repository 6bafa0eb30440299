-- ===== src/Decoder.antt =====
-- src/utils.rs and src/universal_decoder.rs: from the bytes of a call to the swaps that it asks for.
pub mod Readers
pub mod Pairs
pub mod Intents
pub mod Router
pub mod Dispatch
