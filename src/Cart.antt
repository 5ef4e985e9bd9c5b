-- ===== src/Cart.antt =====
-- The cart service: carts in Redis, their locks, proposals and reservations (cart/).
pub mod Models
pub mod Store
pub mod Repository
pub mod Helpers
pub mod Items
pub mod Checkout
pub mod Proposal
pub mod Confirm
