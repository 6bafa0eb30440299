-- ===== src/Factory.antt =====
-- src/factory_scanner.rs and src/discovery.rs: the pools that the factories create.
pub mod Parse
pub mod WarmStart
