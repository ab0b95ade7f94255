-- ===== src/System.antt =====
-- The services together: the transactions of the API and of any number of workers, in any order, on
-- one database.
pub mod Lifecycle
pub mod Effect
pub mod Rows
pub mod Phases
pub mod Transactions
pub mod Invariant
pub mod Audit
pub mod Moves
pub mod Births
pub mod OrderRows
pub mod Keys
pub mod Changes
pub mod Later
pub mod Requests
pub mod Log
pub mod Trail
pub mod Fencing
pub mod Pipeline
pub mod Progress
pub mod Prepared
pub mod Stages
pub mod Turn
pub mod Delivered
pub mod Calls
pub mod Verdicts
pub mod Simulated
pub mod Rounds
