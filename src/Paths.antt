-- ===== src/Paths.antt =====
-- The routes of frontend/src/services/api/paths.ts.
pub mod Api
pub mod Perm
pub mod Agree
