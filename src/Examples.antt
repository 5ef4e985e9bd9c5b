-- ===== src/Examples.antt =====
-- Concrete coupons, orders, payments and stocks, to which the theorems apply.
mod Carts
mod Catalog
mod Coupons
mod Notes
mod Orders
mod Payments
mod Reports
mod Samples
mod Stocks
mod Accounts
