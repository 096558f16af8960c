-- ===== src/Observe.antt =====
-- The pages of frontend/src/features that watch the system rather than keep records: the
-- dashboard, the analytics, the audit log, the sagas and the notifications.
pub mod Dashboard
pub mod Analytics
pub mod AuditLogs
pub mod Sagas
pub mod Notifications
pub mod Gates
