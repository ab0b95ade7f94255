-- ===== src/Api.antt =====
-- backend/api: order intake, cancellation and the recovery of failed tasks.
pub mod OrderStore
pub mod Http
pub mod Intake
pub mod TaskStore
pub mod Reopened
pub mod Cancellation
pub mod Responses
