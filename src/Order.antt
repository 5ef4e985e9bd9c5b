-- ===== src/Order.antt =====
-- The order service: coupons, checkout quotes, orders and their cancellation (order/).
pub mod Models
pub mod Coupon
pub mod Items
pub mod Tables
pub mod Put
pub mod Atomic
pub mod Quote
pub mod Queries
pub mod Service
