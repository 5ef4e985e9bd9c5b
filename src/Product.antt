-- ===== src/Product.antt =====
-- The product service: the catalog, its moderation and reviews, and the import of sample products (product/).
pub mod Models
pub mod Tables
pub mod Service
pub mod SampleData
pub mod Sample
