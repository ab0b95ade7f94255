-- ===== src/Worker.antt =====
-- backend/worker/tasks.py: how a worker claims a task, calls the simulator and commits the result.
pub mod Settings
pub mod Errors
pub mod Decimal
pub mod Specs
pub mod Results
pub mod Downstream
pub mod Lease
pub mod Claim
pub mod Rows
pub mod Checks
pub mod Prepare
pub mod Followup
pub mod Finalize
pub mod Commit
pub mod Budget
pub mod Polling
pub mod Answers
pub mod Reschedule
pub mod Transition
pub mod Poll
pub mod Ready
pub mod Delivery
pub mod Dispatch
pub mod Loop
pub mod Heartbeat
pub mod Idle
pub mod Alive
