-- ===== src/Notification.antt =====
-- The notification service: what an event tells its account, in the application and by mail (notification/).
pub mod Tables
pub mod Copy
pub mod Service
pub mod Unread
pub mod Noted
