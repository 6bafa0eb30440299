-- ===== src/Inventory.antt =====
-- src/inventory_manager.rs: the sweep of tokens, the balance before the start, and the unwrapping of ether.
pub mod Sweep
pub mod Guard
