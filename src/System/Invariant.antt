-- ===== src/System/Invariant.antt =====
-- What holds of the database between transactions.
pub mod Tasks
pub mod State
pub mod Worker
pub mod Followup
pub mod Commit
pub mod Api
pub mod Reachable
