-- ===== src/Admin.antt =====
-- The admin service: the projection of events into daily metrics and an audit log, and the dashboards (admin/).
pub mod Models
pub mod Tables
pub mod Apply
pub mod Once
pub mod Service
pub mod Reporting
