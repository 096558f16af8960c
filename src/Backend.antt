-- ===== src/Backend.antt =====
-- The backend's side of the list endpoints: the pagination engine of
-- backend/internal/pagination/pagination.go, and the column allowlists that the handlers of
-- backend/internal/modules give it.
pub mod Pagination
pub mod Request
pub mod Listing
pub mod Allowlists
pub mod Accepts
