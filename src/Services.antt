-- ===== src/Services.antt =====
-- The services of frontend/src/services: the request that each operation makes. The cancellation
-- signal that some take shows in the answer only (`aborted`).
pub mod Alerts
pub mod Audits
pub mod Auth
pub mod Checklists
pub mod Compliances
pub mod CorrectiveActions
pub mod Deadlines
pub mod Notifications
pub mod Observe
pub mod Regulations
pub mod Reports
pub mod Users
pub mod Violations
