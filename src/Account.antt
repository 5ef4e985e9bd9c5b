-- ===== src/Account.antt =====
-- The account service: sign-up, login, password reset, profiles and roles (account/, pkg/auth).
pub mod Models
pub mod Tokens
pub mod Tables
pub mod Login
pub mod Reset
pub mod Manage
