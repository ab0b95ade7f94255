-- ===== src/Dashboard.antt =====
-- backend/api/dashboard_store.py: the queries of the dashboard.
pub mod Select
pub mod Settings
pub mod Counts
pub mod Health
pub mod Details
pub mod Attention
pub mod Totals
pub mod Backlog
pub mod Ranked
pub mod Listed
pub mod History
