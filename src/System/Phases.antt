-- ===== src/System/Phases.antt =====
-- Each transaction of a worker has an effect: the one before a call, and those after it.
pub mod Command
pub mod Poll
