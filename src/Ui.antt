-- ===== src/Ui.antt =====
-- The shared pieces of the user interface that keep a state or decide something:
-- frontend/src/components and frontend/src/hooks/useDebounce.ts.
pub mod Debounce
pub mod Dropdown
pub mod Avatar
pub mod Frame
pub mod Select
pub mod DateRange
pub mod Modal
