-- ===== src/Tests.antt =====
-- Runs of the model on concrete inputs, and the theorems applied to them.
mod Data
mod Lists
mod Deletions
mod Listings
mod Filtered
mod Sessions
mod Logins
mod Requests
mod Editing
mod Screens
