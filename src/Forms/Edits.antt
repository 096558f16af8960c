-- ===== src/Forms/Edits.antt =====
-- How the fields of the forms are filled in, a module for each form, and what holds meanwhile.
pub mod Linked
pub mod Audits
pub mod Checklists
pub mod Compliances
pub mod CorrectiveActions
pub mod Deadlines
pub mod Regulations
pub mod Reports
pub mod Users
pub mod Violations
