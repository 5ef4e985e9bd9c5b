-- ===== src/Payment.antt =====
-- The payment service: checkout sessions, the VNPAY gateway and its callbacks (payment/).
pub mod Models
pub mod Gateway
pub mod Tables
pub mod Catalog
pub mod Session
pub mod Callback
pub mod Effects
