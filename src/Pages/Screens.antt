-- ===== src/Pages/Screens.antt =====
-- The lists of the pages of frontend/src/features/*/pages: one module for each, what holds of all
-- of them in the others.
pub mod Catalogue
pub mod Filtering
pub mod Menus
pub mod Alerts
pub mod Audits
pub mod Checklists
pub mod Compliances
pub mod CorrectiveActions
pub mod Deadlines
pub mod Regulations
pub mod Reports
pub mod Users
pub mod Violations
