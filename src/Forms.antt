-- ===== src/Forms.antt =====
-- The forms of frontend/src/features/*/components, one module for each, and what they share.
pub mod Common
pub mod Audits
pub mod Checklists
pub mod Compliances
pub mod CorrectiveActions
pub mod Deadlines
pub mod Regulations
pub mod Reports
pub mod Users
pub mod Catalogue
pub mod Edits
pub mod Submission
pub mod Unchanged
pub mod Violations
