-- ===== src/History.antt =====
-- The edit history of the editor: apps/editor/src-tauri/src/edit_service/history.rs.
pub mod Types
pub mod Corrections
pub mod State
pub mod Records
pub mod Prepare
pub mod Groups
pub mod Recording
pub mod Actions
pub mod Finish
pub mod Machine
