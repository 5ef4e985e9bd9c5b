-- ===== src/Inventory.antt =====
-- The inventory service: stock levels, reservations and their expiry (inventory/).
pub mod Models
pub mod Tables
pub mod Availability
pub mod Levels
pub mod Atomic
pub mod Reserve
pub mod Transition
pub mod Stocks
pub mod Service
