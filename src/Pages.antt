-- ===== src/Pages.antt =====
-- The pages of frontend/src/features/*/pages that list and change records, one module for each,
-- and what they share.
pub mod Common
pub mod Cells
pub mod Screens
pub mod Catalogue
pub mod Permitted
pub mod Sent
pub mod Optimistic
pub mod Deletion
pub mod Dialogs
pub mod Alerts
pub mod Audits
pub mod Checklists
pub mod Compliances
pub mod CorrectiveActions
pub mod Deadlines
pub mod Regulations
pub mod Reports
pub mod Users
pub mod Violations
