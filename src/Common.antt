-- ===== src/Common.antt =====
-- backend/common: the lifecycle, task and event constants that the services share.
pub mod StateMachine
pub mod TaskTypes
pub mod Environment
pub mod Pool
pub mod PoolLeaks
pub mod EventTypes
